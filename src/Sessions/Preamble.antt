-- ===== src/Sessions/Preamble.antt =====
-- src/lib.rs, `preamble`: what a stream that is opened begins with.
use zmux_python.Prelude.{
  ℕ, ◌≡◌, ◌≢◌, refl, ap, ◌∙◌, Bool, true, false, not, ◌&&◌, Option, none, some, List, [], ◌∷◌, ◌++◌,
  if◌then◌else◌, is_some,
}
use mathlib.Core.List.{append_assoc}

abbrev pub Bytes : Type 0
Bytes = List ℕ

abbrev pub Tlv : Type 0
Tlv = ℕ × Bytes

-- What a preamble says: the carrier mark, the info, and the records in their order.
pub record Said : Type 0 where
  pub carrier : Bool
  pub info : Option Bytes
  pub tlvs : List Tlv

-- `zmux::Preamble` and its builder, with what each of its calls documents.
pub record Builder : Type 1 where
  pub Preamble : Type 0
  pub new : Preamble
  pub with_pipe_carrier : Preamble → Preamble
  pub with_info : Bytes → Preamble → Preamble
  pub with_tlv : Tlv → Preamble → Preamble
  pub said : Preamble → Said
  pub said-new : said new ≡ record { carrier = false; info = none; tlvs = [] }
  pub said-with_pipe_carrier :
      (p : Preamble) → said (with_pipe_carrier p) ≡ record (said p) { carrier = true }
  pub said-with_info :
      (i : Bytes) (p : Preamble) → said (with_info i p) ≡ record (said p) { info = some i }
  pub said-with_tlv :
      (t : Tlv) (p : Preamble)
      → said (with_tlv t p) ≡ record (said p) { tlvs = (said p).tlvs ++ t ∷ [] }

abbrev or_none : Option (List Tlv) → List Tlv
or_none none = []
or_none (some ts) = ts

abbrev is_nil : List Tlv → Bool
is_nil [] = true
is_nil (t ∷ ts) = false

module _ (b : Builder) where
  open b use {
    Preamble, new, with_pipe_carrier, with_info, with_tlv, said, said-new, said-with_pipe_carrier,
    said-with_info, said-with_tlv,
  }

  abbrev with_tlvs : List Tlv → Preamble → Preamble
  with_tlvs [] p = p
  with_tlvs (t ∷ ts) p = with_tlvs ts (with_tlv t p)

  abbrev informed : Option Bytes → Preamble → Preamble
  informed none p = p
  informed (some i) p = with_info i p

  abbrev marked : Bool → Preamble
  marked false = new
  marked true = with_pipe_carrier new

  unfoldable pub preamble : Option Bytes → Option (List Tlv) → Bool → Option Preamble
  preamble info tlvs carrier =
      if not (is_some info) && is_nil (or_none tlvs) && not carrier
      then none
      else some (with_tlvs (or_none tlvs) (informed info (marked carrier)))

  -- What the arguments say.
  abbrev pub given : Option Bytes → Option (List Tlv) → Bool → Said
  given info tlvs carrier = record { carrier = carrier; info = info; tlvs = or_none tlvs }

  abbrev nothing_said : Said
  nothing_said = record { carrier = false; info = none; tlvs = [] }

  -- No preamble says nothing.
  abbrev pub Says : Said → Option Preamble → Type 0
  Says s none = s ≡ nothing_said
  Says s (some p) = (said p ≡ s) × (s ≢ nothing_said)

  append_empty : (ts : List Tlv) → ts ++ [] ≡ ts
  append_empty [] = refl
  append_empty (t ∷ ts) = ap (◌∷◌ t) (append_empty ts)

  with_tlvs-said :
      (ts : List Tlv) (p : Preamble) (c : Bool) (i : Option Bytes) (before : List Tlv)
      → said p ≡ record { carrier = c; info = i; tlvs = before }
      → said (with_tlvs ts p) ≡ record { carrier = c; info = i; tlvs = before ++ ts }
  with_tlvs-said [] p c i before h = rw (append_empty before) h
  with_tlvs-said (t ∷ ts) p c i before h =
      with_tlvs-said ts (with_tlv t p) c i (before ++ t ∷ []) (said-with_tlv t p ∙ rw h refl)
      ∙ rw (append_assoc before (t ∷ []) ts) refl

  informed-said :
      (i : Option Bytes) (c : Bool)
      → said (informed i (marked c)) ≡ record { carrier = c; info = i; tlvs = [] }
  informed-said none false = said-new
  informed-said none true = said-with_pipe_carrier new ∙ rw said-new refl
  informed-said (some i) false = said-with_info i new ∙ rw said-new refl
  informed-said (some i) true =
      said-with_info i (with_pipe_carrier new) ∙ rw (said-with_pipe_carrier new, said-new) refl

  made-said :
      (info : Option Bytes) (ts : List Tlv) (c : Bool)
      → said (with_tlvs ts (informed info (marked c)))
        ≡ record { carrier = c; info = info; tlvs = ts }
  made-said info ts c =
      with_tlvs-said ts (informed info (marked c)) c info [] (informed-said info c)

  -- The stream begins with a preamble exactly where the arguments say anything, and the preamble says
  -- the carrier mark, the info and the records, in their order.
  pub preamble-Says :
      (info : Option Bytes) (tlvs : Option (List Tlv)) (carrier : Bool)
      → Says (given info tlvs carrier) (preamble info tlvs carrier)
  unfolding preamble
  preamble-Says none none false = refl
  preamble-Says none (some []) false = refl
  preamble-Says none (some (t ∷ ts)) false =
      (made-said none (t ∷ ts) false, λ e. cc (ap (λ s. s.tlvs) e))
  preamble-Says none none true = (made-said none [] true, λ e. cc (ap (λ s. s.carrier) e))
  preamble-Says none (some []) true = (made-said none [] true, λ e. cc (ap (λ s. s.carrier) e))
  preamble-Says none (some (t ∷ ts)) true =
      (made-said none (t ∷ ts) true, λ e. cc (ap (λ s. s.carrier) e))
  preamble-Says (some i) none c = (made-said (some i) [] c, λ e. cc (ap (λ s. s.info) e))
  preamble-Says (some i) (some ts) c = (made-said (some i) ts c, λ e. cc (ap (λ s. s.info) e))
