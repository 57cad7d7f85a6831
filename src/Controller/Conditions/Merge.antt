-- ===== src/Controller/Conditions/Merge.antt =====
-- What `applyConditions` of internal/controller/conditions.go makes of the conditions of an object.
use private_dns_operator.Prelude.{
  ℕ, ◌≡◌, ◌≢◌, refl, ap, ◌∙◌, true, false, not, ◌&&◌, List, [], ◌∷◌, if◌then◌else◌, Option, none,
  some, all, arith, eqb,
}
use private_dns_operator.Text.{Text, ◌==◌}
use private_dns_operator.Text.Eq.{eq_iff, eq_refl}
use private_dns_operator.Text.Set.{contains}
use private_dns_operator.Types.{Condition}
use private_dns_operator.Kube.Machinery.{
  Machinery, MachineryLaws, find_condition, stamped, same_status,
}
use private_dns_operator.Coredns.ConfigMap.Files.{distinct}
use private_dns_operator.Controller.Conditions.{
  types_of, set_conditions, prune_conditions, apply_conditions,
}

-- Desired conditions: one of a type, and none with a time of its own.
pub record IsDesired (desired : List Condition) : Type 0 where
  pub one_each : distinct (types_of desired) ≡ true
  pub no_time : all (λ c. eqb c.last_transition_time 0) desired ≡ true

-- What an object has of a type after the desired condition of this type, if any, is set.
unfoldable pub merged : ℕ → Option Condition → Option Condition → Option Condition
unfolding stamped
merged now old none = old
merged now old (some c) = some (stamped now old c)

missing :
    (t : Text) (cs : List Condition) → contains (types_of cs) t ≡ false → find_condition t cs ≡ none
unfolding types_of find_condition contains
missing t [] h = refl
missing t (c ∷ cs) h = ground (arith, missing t cs)

present :
    (t : Text) (cs : List Condition) → contains (types_of cs) t ≡ true → find_condition t cs ≢ none
unfolding types_of find_condition contains
present t [] h e = cc
present t (c ∷ cs) h e = ground (arith, present t cs)

distinct_tail :
    (c : Condition) (cs : List Condition)
    → distinct (types_of (c ∷ cs)) ≡ true
    → (contains (types_of cs) c.condition_type ≡ false) × (distinct (types_of cs) ≡ true)
unfolding types_of distinct contains
distinct_tail c cs h = ground arith

IsDesired-tail :
    (c : Condition) (cs : List Condition)
    → IsDesired (c ∷ cs)
    → (find_condition c.condition_type cs ≡ none) × (c.last_transition_time ≡ 0) × IsDesired cs
unfolding all
IsDesired-tail c cs h =
    let (fresh, rest) = distinct_tail c cs h.one_each in
    (
      missing c.condition_type cs fresh,
      ground (arith, h.no_time),
      record { one_each = rest; no_time = ground (arith, h.no_time) },
    )

merged_first :
    (now : Text → ℕ) (c : Condition) (desired : List Condition) (t : Text) (old : Option Condition)
    → find_condition c.condition_type desired ≡ none
    → merged
        (now t)
        (if c.condition_type == t then some (stamped (now c.condition_type) old c) else old)
        (find_condition t desired)
      ≡ merged (now t) old (find_condition t (c ∷ desired))
unfolding merged find_condition
merged_first now c desired t old fresh = ground (
  arith,
  eq_iff c.condition_type t,
  λ (e : c.condition_type ≡ t). ap now e,
  λ (e : c.condition_type ≡ t). ap (λ u. find_condition u desired) e,
)

stamped_time :
    (now : ℕ) (old : Option Condition) (c : Condition)
    → (time : ℕ) × (stamped now old c ≡ record c { last_transition_time = time })
unfolding stamped
stamped_time now none c = (now, refl)
stamped_time now (some old) c =
    (if same_status old.status c.status then old.last_transition_time else now, refl)

first_found :
    (c : Condition) (cs : List Condition) → find_condition c.condition_type (c ∷ cs) ≡ some c
unfolding find_condition
first_found c cs = ground (arith, eq_refl c.condition_type)

later_found :
    (c : Condition) (cs : List Condition) (t : Text) (d : Condition)
    → find_condition c.condition_type cs ≡ none
    → find_condition t cs ≡ some d
    → find_condition t (c ∷ cs) ≡ some d
unfolding find_condition
later_found c cs t d fresh e = ground (
  arith,
  eq_iff c.condition_type t,
  λ (q : c.condition_type ≡ t). ap (λ u. find_condition u cs) q,
)

module _ (m : Machinery) (laws : MachineryLaws m) where
  find-set_conditions :
      (now : Text → ℕ) (cs desired : List Condition) (t : Text)
      → IsDesired desired
      → find_condition t (set_conditions m now cs desired)
        ≡ merged (now t) (find_condition t cs) (find_condition t desired)
  unfolding set_conditions find_condition merged
  find-set_conditions now cs [] t h = refl
  find-set_conditions now cs (c ∷ desired) t h =
      let (fresh, no_time, rest) = IsDesired-tail c desired h in
      let at = now c.condition_type in
      find-set_conditions now (m.set_status_condition at cs c) desired t rest
      ∙ ap (λ o. merged (now t) o (find_condition t desired)) (laws.find-set at cs c t no_time)
      ∙ merged_first now c desired t (find_condition t cs) fresh

  find-prune_conditions :
      (cs : List Condition) (wanted owned : List Text) (t : Text)
      → find_condition t (prune_conditions m cs wanted owned)
        ≡ (if contains owned t && not (contains wanted t) then none else find_condition t cs)
  unfolding prune_conditions contains
  find-prune_conditions cs wanted [] t = refl
  find-prune_conditions cs wanted (u ∷ owned) t = ground (
    arith,
    find-prune_conditions cs wanted owned t,
    find-prune_conditions (m.remove_status_condition cs u) wanted owned t,
    laws.find-remove cs u t,
    eq_iff u t,
    λ (e : u ≡ t). ap (contains wanted) e,
  )

  -- Of a desired type, an object has the desired condition after applyConditions, with the time
  -- that it had where the status is the same; of another owned type it has none; and of any other
  -- type it has what it had. The desired conditions are one of a type and without times, and
  -- SetStatusCondition and RemoveStatusCondition do what they document.
  pub find-apply_conditions :
      (now : Text → ℕ) (existing desired : List Condition) (owned : List Text) (t : Text)
      → IsDesired desired
      → find_condition t (apply_conditions m now existing desired owned)
        ≡ elim (find_condition t desired) [
          | none ↦ if contains owned t then none else find_condition t existing
          | some c ↦ some (stamped (now t) (find_condition t existing) c)
        ]
  unfolding apply_conditions merged
  find-apply_conditions now existing desired owned t h = ground (
    arith,
    find-prune_conditions (set_conditions m now existing desired) (types_of desired) owned t,
    find-set_conditions now existing desired t h,
    missing t desired,
    present t desired,
  )

  -- An object that has these conditions already, whatever their times.
  abbrev pub HasDesired : List Condition → List Condition → Type 0
  HasDesired cs desired =
      (t : Text) (c : Condition)
      → find_condition t desired ≡ some c
      → (time : ℕ) × (find_condition t cs ≡ some (record c { last_transition_time = time }))

  set_conditions_idle :
      (now : Text → ℕ) (cs desired : List Condition)
      → IsDesired desired
      → HasDesired cs desired
      → set_conditions m now cs desired ≡ cs
  unfolding set_conditions
  set_conditions_idle now cs [] h has = refl
  set_conditions_idle now cs (c ∷ desired) h has =
      let (fresh, no_time, rest) = IsDesired-tail c desired h in
      let (time, found) = has c.condition_type c (first_found c desired) in
      ap (λ xs. set_conditions m now xs desired)
        (laws.set_idle (now c.condition_type) time cs c found)
      ∙ set_conditions_idle now cs desired rest
          (λ t d e. has t d (later_found c desired t d fresh e))

  prune_conditions_idle :
      (cs : List Condition) (wanted owned : List Text)
      → ((t : Text)
          → contains owned t ≡ true
          → contains wanted t ≡ false
          → find_condition t cs ≡ none)
      → prune_conditions m cs wanted owned ≡ cs
  unfolding prune_conditions contains
  prune_conditions_idle cs wanted [] h = refl
  prune_conditions_idle cs wanted (u ∷ owned) h = ground (
    arith,
    prune_conditions_idle cs wanted owned (λ t o w. h t (ground arith) w),
    laws.remove_idle cs u,
    h u,
    eq_refl u,
  )

  pub apply_conditions-HasDesired :
      (now : Text → ℕ) (existing desired : List Condition) (owned : List Text)
      → IsDesired desired
      → HasDesired (apply_conditions m now existing desired owned) desired
  apply_conditions-HasDesired now existing desired owned h t c e =
      let (time, same) = stamped_time (now t) (find_condition t existing) c in
      (time, (find-apply_conditions now existing desired owned t h ∙ rw (e, same) refl))

  apply_conditions-prunes :
      (now : Text → ℕ) (existing desired : List Condition) (owned : List Text)
      → IsDesired desired
      → (t : Text) → contains owned t ≡ true
      → contains (types_of desired) t ≡ false
      → find_condition t (apply_conditions m now existing desired owned) ≡ none
  apply_conditions-prunes now existing desired owned h t o w =
      find-apply_conditions now existing desired owned t h ∙ rw (missing t desired w, o) refl

  -- Applying desired conditions, one of a type and without times, to the outcome of applying them
  -- at any other time changes nothing, where SetStatusCondition and RemoveStatusCondition do what
  -- they document.
  pub apply_conditions-apply_conditions :
      (now later : Text → ℕ) (existing desired : List Condition) (owned : List Text)
      → IsDesired desired
      → apply_conditions m later (apply_conditions m now existing desired owned) desired owned
        ≡ apply_conditions m now existing desired owned
  unfolding apply_conditions
  apply_conditions-apply_conditions now later existing desired owned h =
      let done = apply_conditions m now existing desired owned in
      ap (λ cs. prune_conditions m cs (types_of desired) owned)
        (set_conditions_idle later done desired h
          (apply_conditions-HasDesired now existing desired owned h))
      ∙ prune_conditions_idle done (types_of desired) owned
          (apply_conditions-prunes now existing desired owned h)
