-- ===== src/Helpers/Snake.antt =====
-- src/helpers.rs, `snake`: the name of a variant as Python spells it.
use zmux_python.Prelude.{
  ℕ, ◌+◌, ◌-◌, ◌≡◌, refl, Bool, true, false, ◌&&◌, [], ◌∷◌, ltb, ◌==◌, if◌then◌else◌, arith, All,
  Bool-cases, inl, inr, ◌<◌,
}
use zmux_python.Errors.{Text}

-- `char::is_ascii_uppercase` and `is_ascii_lowercase`, `to_ascii_lowercase` and its inverse
abbrev pub is_upper : ℕ → Bool
is_upper c = ltb 64 c && ltb c 91

abbrev pub to_lower : ℕ → ℕ
to_lower c = if is_upper c then c + 32 else c

abbrev is_lower : ℕ → Bool
is_lower c = ltb 96 c && ltb c 123

abbrev to_upper : ℕ → ℕ
to_upper c = if is_lower c then c - 32 else c

-- The turns of the loop after the first.
unfoldable pub snake_rest : Text → Text
snake_rest [] = []
snake_rest (c ∷ cs) =
    let rest = to_lower c ∷ snake_rest cs in if is_upper c then 95 ∷ rest else rest

unfoldable pub snake : Text → Text
unfolding snake_rest
snake [] = []
snake (c ∷ cs) = to_lower c ∷ snake_rest cs

-- The variant that a spelling is of: the first letter and each one after `_` is a capital.
abbrev camel_from : Bool → Text → Text
camel_from after [] = []
camel_from after (c ∷ cs) =
    let capital = to_upper c ∷ camel_from false cs in
    let small = c ∷ camel_from false cs in
    let skip = camel_from true cs in if after then capital else (if c == 95 then skip else small)

abbrev pub camel : Text → Text
camel = camel_from true

-- A name without `_`, of which a letter that is not a capital stays as it is.
abbrev IsLetter : ℕ → Type 0
IsLetter c = (c == 95) ≡ false

capital_bounds : (c : ℕ) → is_upper c ≡ true → (64 < c) × (c < 91)
capital_bounds c h = ground (arith, h)

capital_lem : (c : ℕ) → is_upper c ≡ true → (to_lower c ≡ c + 32) × (to_upper (c + 32) ≡ c)
capital_lem c h = let (lo, hi) = capital_bounds c h in (rw h refl, ground (arith, lo, hi))

camel-snake_rest : (cs : Text) → All IsLetter cs → camel_from false (snake_rest cs) ≡ cs
unfolding snake_rest
camel-snake_rest [] h = refl
camel-snake_rest (c ∷ cs) (h, hs) = elim (Bool-cases (is_upper c)) [
  | inl e ↦ rw (e, (capital_lem c e).1, camel-snake_rest cs hs) refl
  | inr e ↦ rw (e, h, camel-snake_rest cs hs) refl
]

-- The name of a variant, which begins with a capital and has no `_`, is read back from the spelling.
pub camel-snake :
    (c : ℕ) (cs : Text) → is_upper c ≡ true → All IsLetter cs → camel (snake (c ∷ cs)) ≡ c ∷ cs
unfolding snake
camel-snake c cs h hs = rw ((capital_lem c h).0, (capital_lem c h).1, camel-snake_rest cs hs) refl
