-- ===== src/Integer/Formats.antt =====
-- What the integer domain takes from Go's library, as parameters, and Go's 64-bit `int`.
use boatstack.Base.{ℕ, zero, suc, ◌-◌, ◌^◌, String, Option, eqb, if◌then◌else◌}
use boatstack.Base.Int.{ℤ}

pub record Formats : Type 0 where
  -- `json.Marshal` and `json.Unmarshal` of the struct with the one field `value`
  pub marshal_value : ℤ → Option String
  pub unmarshal_value : String → Option ℤ
  -- `fmt.Sprintf` of "%d" and "%q"
  pub format_int : ℤ → String
  pub quote : String → String

-- the greatest `int`
abbrev pub max_int : ℕ
max_int = 2 ^ 63 - 1

-- `n + 1`, which wraps around
unfoldable pub next_int : ℤ → ℤ
next_int (ℤ.pos n) = if eqb n max_int then ℤ.negsuc max_int else ℤ.pos (suc n)
next_int (ℤ.negsuc zero) = ℤ.pos 0
next_int (ℤ.negsuc (suc n)) = ℤ.negsuc n

-- `n - 1`, which wraps around
unfoldable pub previous_int : ℤ → ℤ
previous_int (ℤ.pos zero) = ℤ.negsuc 0
previous_int (ℤ.pos (suc n)) = ℤ.pos n
previous_int (ℤ.negsuc n) = if eqb n max_int then ℤ.pos max_int else ℤ.negsuc (suc n)
