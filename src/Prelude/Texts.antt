-- ===== src/Prelude/Texts.antt =====
-- Texts by their characters.
use Prim.Native.Nat.{ℕ, suc}
use Prim.Native.String.{String}

-- `text[:n]`
pub take_chars : ℕ → String → String
take_chars ℕ.zero s = ""
take_chars (suc n) String.[] = ""
take_chars (suc n) (String.◌∷◌ c s) = String.◌∷◌ c (take_chars n s)

-- `text[n:]`
pub drop_chars : ℕ → String → String
drop_chars ℕ.zero s = s
drop_chars (suc n) String.[] = ""
drop_chars (suc n) (String.◌∷◌ c s) = drop_chars n s
