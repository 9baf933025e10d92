-- ===== src/Labgob/Marks.antt =====
-- The marks of the search in lab2/labgob/labgob.go: which types are checked, and how many are not.
use cs426_spring2022_labs.Common.{
  ℕ, ◌+◌, ◌≤◌, ◌<◌, ◌≡◌, ◌≢◌, refl, sym, ◌∙◌, inl, inr, true, false, List, [], ◌∷◌, if◌then◌else◌,
  nat_key, In, Distinct, arith,
}
use cs426_spring2022_labs.Common.GoMap.{get_or-insert_self, get_or-insert_ne}
use cs426_spring2022_labs.Labgob.{
  report, Field, TypeInfo, struct, holds, map_of, basic, Types, State, is_checked, mark,
}

-- How many fields of a type are lower-case.
abbrev pub lower_fields : List Field → ℕ
lower_fields [] = 0
lower_fields (f ∷ fields) = (if f.is_upper then 0 else 1) + lower_fields fields

abbrev pub lower : TypeInfo → ℕ
lower (struct fields) = lower_fields fields
lower (holds elem) = 0
lower (map_of elem key) = 0
lower basic = 0

abbrev pub field_types : List Field → List ℕ
field_types [] = []
field_types (f ∷ fields) = f.type_ ∷ field_types fields

-- The types that a type is made of.
abbrev pub parts : TypeInfo → List ℕ
parts (struct fields) = field_types fields
parts (holds elem) = elem ∷ []
parts (map_of elem key) = elem ∷ key ∷ []
parts basic = []

-- The types that can be reached through parts.
pub data Reaches (types : Types) (t : ℕ) : ℕ → Type 0 where
  here : Reaches types t t
  through : {u v : ℕ} → Reaches types t u → In v (parts (types u)) → Reaches types t v

-- How many of the types are not checked yet.
unfoldable pub unchecked : List ℕ → State → ℕ
unchecked [] s = 0
unchecked (t ∷ ts) s = (if is_checked s t then 0 else 1) + unchecked ts s

-- The lower-case fields of the types that are checked.
unfoldable pub counted : Types → List ℕ → State → ℕ
counted types [] s = 0
counted types (t ∷ ts) s = (if is_checked s t then lower (types t) else 0) + counted types ts s

pub is_checked-mark_self : (s : State) (t : ℕ) → is_checked (mark s t) t ≡ true
is_checked-mark_self s t = get_or-insert_self s.checked t true false

pub is_checked-mark_ne : (s : State) (t u : ℕ) → u ≢ t → is_checked (mark s t) u ≡ is_checked s u
is_checked-mark_ne s t u ne = get_or-insert_ne s.checked t u true false ne

pub is_checked-mark : (s : State) (t u : ℕ) → is_checked s u ≡ true → is_checked (mark s t) u ≡ true
is_checked-mark s t u h = elim (nat_key.same u t) [
  | yes e ↦ rw e (is_checked-mark_self s t)
  | no ne ↦ is_checked-mark_ne s t u ne ∙ h
]

-- More marks leave fewer types unchecked.
pub unchecked_le :
    (ts : List ℕ) (s s' : State)
    → ((u : ℕ) → is_checked s u ≡ true → is_checked s' u ≡ true)
    → unchecked ts s' ≤ unchecked ts s
unfolding unchecked
unchecked_le [] s s' h = omega arith
unchecked_le (t ∷ ts) s s' h = ground (arith, h t, unchecked_le ts s s' h)

pub unchecked-mark :
    (ts : List ℕ) (s : State) (t : ℕ)
    → In t ts
    → is_checked s t ≡ false
    → unchecked ts (mark s t) < unchecked ts s
unfolding unchecked
unchecked-mark [] s t i h = absurd i.0
unchecked-mark (u ∷ ts) s t (inl e) h = ground (
  arith,
  e,
  h,
  is_checked-mark_self s t,
  unchecked_le ts s (mark s t) (λ v. is_checked-mark s t v),
)
unchecked-mark (u ∷ ts) s t (inr i) h =
    ground (arith, unchecked-mark ts s t i h, is_checked-mark s t u)

counted-mark_absent :
    (types : Types) (ts : List ℕ) (s : State) (t : ℕ)
    → ¬ In t ts
    → counted types ts (mark s t) ≡ counted types ts s
unfolding counted
counted-mark_absent types [] s t h = refl
counted-mark_absent types (u ∷ ts) s t h = ground (
  arith,
  is_checked-mark_ne s t u (λ e. h (inl (sym e))),
  counted-mark_absent types ts s t (λ i. h (inr i)),
)

pub counted-mark :
    (types : Types) (ts : List ℕ) (s : State) (t : ℕ)
    → Distinct ts
    → In t ts
    → is_checked s t ≡ false
    → counted types ts (mark s t) ≡ counted types ts s + lower (types t)
unfolding counted
counted-mark types [] s t d i h = absurd i.0
counted-mark types (u ∷ ts) s t d (inl e) h =
    ground (
      arith,
      e,
      h,
      is_checked-mark_self s t,
      counted-mark_absent types ts s t (λ i. d.0 (rw e at i)),
    )
counted-mark types (u ∷ ts) s t d (inr i) h = ground (
  arith,
  counted-mark types ts s t d.1 i h,
  is_checked-mark_ne s t u (λ e. d.0 (rw (sym e) at i)),
)

pub unchecked-report :
    (ts : List ℕ) (f : Field) (s : State) → unchecked ts (report f s) ≡ unchecked ts s
unfolding unchecked
unchecked-report [] f s = refl
unchecked-report (t ∷ ts) f s = ground (arith, unchecked-report ts f s)
