-- ===== src/Delivery/Ports.antt =====
-- What software delivery takes from Go's library: `json.Marshal` of what it fingerprints (`none`
-- where it returns an error), the hexadecimal SHA-256 of a text, paths of the host's file system,
-- white space, and the regular expressions of the command classifier.
use boatstack.Base.{String, Bool, Option, List}
use boatstack.Delivery.Model.Observation.{Observation}
use boatstack.Delivery.Catalog.Work.{WorkContract}

pub record Library : Type 0 where
  pub marshal_observation : Observation → Option String
  -- the anonymous struct of a work contract, which leaves out its fingerprint
  pub marshal_work : WorkContract → Option String
  pub sha256_hex : String → String
  pub path_is_abs : String → Bool
  pub path_clean : String → String
  pub trim_space : String → String
  pub fields : String → List String
  -- `regexp.MustCompile(pattern).MatchString(text)`
  pub match_string : String → String → Bool
