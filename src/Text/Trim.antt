-- ===== src/Text/Trim.antt =====
-- TrimSpace: what it keeps, and that trimming twice is trimming once.
use task_discovery_service.Prelude.{ℕ, ◌≡◌, refl, false, [], ◌∷◌, Text, arith, All}
use task_discovery_service.Text.{put_back, is_space, trim_left, trim_right, trim_space}

-- No code point is a space.
abbrev pub IsSolid : Text → Type 0
IsSolid = All (λ c. is_space c ≡ false)

pub trim_right_solid : (s : Text) → IsSolid s → trim_right s ≡ s
unfolding trim_right
trim_right_solid [] h = refl
trim_right_solid (c ∷ []) h = rw h.0
trim_right_solid (c ∷ d ∷ s) h = rw (trim_right_solid (d ∷ s) h.1)

pub trim_space_solid : (s : Text) → IsSolid s → trim_space s ≡ s
unfolding trim_space
trim_space_solid [] h = refl
trim_space_solid (c ∷ s) h = rw h.0 (trim_right_solid (c ∷ s) h)

put_back_fixed : (c : ℕ) (t : Text) → trim_right t ≡ t → trim_right (put_back c t) ≡ put_back c t
unfolding trim_right
put_back_fixed c [] h = ground arith
put_back_fixed c (d ∷ t) h = rw h

trim_right_idem : (s : Text) → trim_right (trim_right s) ≡ trim_right s
unfolding trim_right
trim_right_idem [] = refl
trim_right_idem (c ∷ s) = put_back_fixed c (trim_right s) (trim_right_idem s)

-- What is left begins with no space.
abbrev BeginsSolid : Text → Type 0
BeginsSolid [] = Unit
BeginsSolid (c ∷ s) = is_space c ≡ false

trim_left_begins : (s : Text) → BeginsSolid (trim_left s)
unfolding trim_left
trim_left_begins [] = tt
trim_left_begins (c ∷ s) = ground (arith, trim_left_begins s)

trim_left_fixed : (s : Text) → BeginsSolid s → trim_left s ≡ s
unfolding trim_left
trim_left_fixed [] h = refl
trim_left_fixed (c ∷ s) h = rw h

trim_right_begins : (s : Text) → BeginsSolid s → BeginsSolid (trim_right s)
unfolding trim_right
trim_right_begins [] h = tt
trim_right_begins (c ∷ s) h = ground arith

pub trim_space_idem : (s : Text) → trim_space (trim_space s) ≡ trim_space s
unfolding trim_space
trim_space_idem s =
    rw
      (trim_left_fixed (trim_right (trim_left s))
        (trim_right_begins (trim_left s) (trim_left_begins s)))
      (trim_right_idem (trim_left s))
