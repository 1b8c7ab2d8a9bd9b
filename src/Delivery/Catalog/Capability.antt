-- ===== src/Delivery/Catalog/Capability.antt =====
-- `Capability` of boatstack/internal/softwaredelivery/catalog/capability.go: a string type.
use boatstack.Base.{String, Bool, List, [], ◌∷◌, contains}

abbrev pub Capability : Type 0
Capability = String

abbrev pub repository_write : Capability
repository_write = "repository.write"

abbrev pub command_execute : Capability
command_execute = "command.execute"

abbrev pub product_mutate : Capability
product_mutate = "product.mutate"

abbrev pub publication_prepare : Capability
publication_prepare = "publication.prepare"

abbrev pub publication_publish : Capability
publication_publish = "publication.publish"

abbrev pub human_approve : Capability
human_approve = "human.approve"

-- Capability.Valid: the named values
abbrev pub values : List Capability
values =
    repository_write ∷ command_execute ∷ product_mutate ∷ publication_prepare ∷ publication_publish
    ∷ human_approve ∷ []

abbrev pub is_valid : Capability → Bool
is_valid value = contains values value
