-- ===== src/Net/Chars.antt =====
-- The addresses that net.ParseIP accepts are on one line.
use private_dns_operator.Prelude.{
  ℕ, zero, suc, ◌+◌, ◌-◌, ◌*◌, ◌/◌, ◌%◌, ◌≡◌, refl, ◌∙◌, Bool, true, false, not, ◌&&◌, ◌||◌, List,
  [], ◌∷◌, ◌++◌, if◌then◌else◌, Option, none, some, is_empty, length, eqb, ltb, all, arith,
  Option-cases, Bool-cases, inl, inr,
}
use private_dns_operator.Text.{Text}
use private_dns_operator.Text.Decimal.{is_digit}
use private_dns_operator.Text.Split.{lacks}
use private_dns_operator.Net.{
  v4_loop, parse_ipv4, hex_value, hex_group, Groups, is_some, after_group, v4_tail, v6_loop, finish,
  leading_ellipsis, parse_ipv6, v4_bytes, parse_addr, parse_ip, zeros,
}

v4_line :
    (s : Text) (fresh : Bool) (val pos dig_len : ℕ) (fields result : List ℕ)
    → v4_loop s fresh val pos dig_len fields ≡ some result
    → lacks b'\n' s ≡ true
unfolding v4_loop lacks all is_digit
v4_line [] fresh val pos dig_len fields result h = refl
v4_line (c ∷ s) fresh val pos dig_len fields result h = ground (
  arith,
  v4_line s false (val * 10 + (c - b'0')) pos (dig_len + 1) fields result,
  v4_line s true 0 (pos + 1) 0 (fields ++ val ∷ []) result,
)

-- What is read in front of the rest has no newline.
abbrev RestLine : Text → Option (ℕ × ℕ × Text) → Type 0
RestLine s none = Unit {0}
RestLine s (some (value, count, rest)) = lacks b'\n' s ≡ lacks b'\n' rest

further :
    (s t : Text) (o : Option (ℕ × ℕ × Text))
    → lacks b'\n' t ≡ lacks b'\n' s
    → RestLine s o
    → RestLine t o
further s t none e h = tt
further s t (some (value, count, rest)) e h = e ∙ h

hex_digit_line : (c v : ℕ) (s : Text) → hex_value c ≡ some v → lacks b'\n' (c ∷ s) ≡ lacks b'\n' s
unfolding hex_value lacks all
hex_digit_line c v s h = ground arith

digit_RestLine :
    (c : ℕ) (s : Text) (found : Option ℕ) (long : Bool) (off : ℕ) (next : ℕ → Option (ℕ × ℕ × Text))
    (acc : ℕ)
    → hex_value c ≡ found
    → ((v : ℕ) → RestLine s (next v))
    → RestLine
        (c ∷ s)
        (elim found [ none ↦ some (acc, off, c ∷ s) | some v ↦ if long then none else next v ])
digit_RestLine c s none long off next acc e h = refl
digit_RestLine c s (some v) true off next acc e h = tt
digit_RestLine c s (some v) false off next acc e h =
    further s (c ∷ s) (next v) (hex_digit_line c v s e) (h v)

hex_group-RestLine : (s : Text) (acc off : ℕ) → RestLine s (hex_group s acc off)
unfolding hex_group
hex_group-RestLine [] acc off = refl
hex_group-RestLine (c ∷ s) acc off =
    digit_RestLine c s (hex_value c) (ltb 3 off) off (λ v. hex_group s (acc * 16 + v) (off + 1)) acc
      refl λ v. hex_group-RestLine s (acc * 16 + v) (off + 1)

-- The same for the rest behind the groups.
abbrev GroupsLine : Text → Option Groups → Type 0
GroupsLine s none = Unit {0}
GroupsLine s (some g) = lacks b'\n' s ≡ lacks b'\n' g.rest

onward :
    (s t : Text) (o : Option Groups)
    → lacks b'\n' t ≡ lacks b'\n' s
    → GroupsLine s o
    → GroupsLine t o
onward s t none e h = tt
onward s t (some g) e h = e ∙ h

colon_line : (c : ℕ) (s : Text) → eqb c b':' ≡ true → lacks b'\n' (c ∷ s) ≡ lacks b'\n' s
unfolding lacks all
colon_line c s h = ground arith

empty_line : (s : Text) → is_empty s ≡ true → lacks b'\n' s ≡ true
unfolding lacks all
empty_line [] h = refl
empty_line (c ∷ s) h = cc

after_group-GroupsLine :
    (again : Text → List ℕ → Option ℕ → Option Groups)
    → ((s : Text) (bytes : List ℕ) (ellipsis : Option ℕ) → GroupsLine s (again s bytes ellipsis))
    → (s : Text) (bytes : List ℕ) (ellipsis : Option ℕ)
    → GroupsLine s (after_group again s bytes ellipsis)
unfolding after_group lacks
after_group-GroupsLine again h [] bytes ellipsis = refl
after_group-GroupsLine again h (c ∷ []) bytes ellipsis = tt
after_group-GroupsLine again h (c ∷ d ∷ s) bytes ellipsis = elim (Bool-cases (eqb c b':')) [
  | inr e ↦ rw e tt
  | inl e ↦ elim (Bool-cases (eqb d b':')) [
    | inr q ↦
        rw (e, q) (onward (d ∷ s) (c ∷ d ∷ s) _ (colon_line c (d ∷ s) e) (h (d ∷ s) bytes ellipsis))
    | inl q ↦ elim (Bool-cases (is_some ellipsis)) [
      | inl two ↦ rw (e, q, two) tt
      | inr one ↦ elim (Bool-cases (is_empty s)) [
        | inl end_ ↦
            rw (e, q, one, end_) (colon_line c (d ∷ s) e ∙ colon_line d s q ∙ empty_line s end_)
        | inr more ↦
            rw (e, q, one, more)
              (onward s (c ∷ d ∷ s) _ (colon_line c (d ∷ s) e ∙ colon_line d s q)
                (h s bytes (some (length bytes))))
      ]
    ]
  ]
]

parse_ipv4_line : (s : Text) (fields : List ℕ) → parse_ipv4 s ≡ some fields → lacks b'\n' s ≡ true
unfolding parse_ipv4
parse_ipv4_line s fields h = v4_line s true 0 0 0 [] fields h

v4_tail-GroupsLine :
    (s : Text) (bytes : List ℕ) (ellipsis : Option ℕ) → GroupsLine s (v4_tail s bytes ellipsis)
unfolding v4_tail lacks
v4_tail-GroupsLine s bytes ellipsis =
    let refused =
      (not (is_some ellipsis) && not (eqb (length bytes) 12)) || ltb 12 (length bytes) in
    elim (Bool-cases refused) [
      | inl e ↦ rw e tt
      | inr e ↦ elim (Option-cases (parse_ipv4 s)) [
        | inl q ↦ rw (e, q) tt
        | inr (fields, q) ↦ rw (e, q) (parse_ipv4_line s fields q)
      ]
    ]

v6_step :
    (again : Text → List ℕ → Option ℕ → Option Groups)
    → ((s : Text) (bytes : List ℕ) (ellipsis : Option ℕ) → GroupsLine s (again s bytes ellipsis))
    → (s : Text) (bytes : List ℕ) (ellipsis : Option ℕ) (o : Option (ℕ × ℕ × Text)) → RestLine s o
    → GroupsLine s (elim o [
      | none ↦ none
      | some (acc, off, []) ↦
          if eqb off 0
          then none
          else some (record {
            bytes = bytes ++ acc / 256 ∷ acc % 256 ∷ [];
            ellipsis = ellipsis;
            rest = [];
          })
      | some (acc, off, c ∷ rest) ↦
          if eqb off 0
          then none
          else if eqb c b'.'
          then v4_tail s bytes ellipsis
          else after_group again (c ∷ rest) (bytes ++ acc / 256 ∷ acc % 256 ∷ []) ellipsis
    ])
v6_step again h s bytes ellipsis none read = tt
v6_step again h s bytes ellipsis (some (acc, off, [])) read = elim (Bool-cases (eqb off 0)) [
  | inl e ↦ rw e tt
  | inr e ↦ rw e read
]
v6_step again h s bytes ellipsis (some (acc, off, c ∷ rest)) read = elim (Bool-cases (eqb off 0)) [
  | inl e ↦ rw e tt
  | inr e ↦ elim (Bool-cases (eqb c b'.')) [
    | inl q ↦ rw (e, q) (v4_tail-GroupsLine s bytes ellipsis)
    | inr q ↦
        rw (e, q)
          (onward (c ∷ rest) s _ read (
            after_group-GroupsLine again h (c ∷ rest) (bytes ++ acc / 256 ∷ acc % 256 ∷ [])
              ellipsis))
  ]
]

v6_loop-GroupsLine :
    (left : ℕ) (s : Text) (bytes : List ℕ) (ellipsis : Option ℕ)
    → GroupsLine s (v6_loop left s bytes ellipsis)
unfolding v6_loop
v6_loop-GroupsLine zero s bytes ellipsis = refl
v6_loop-GroupsLine (suc left) s bytes ellipsis =
    v6_step (v6_loop left) (v6_loop-GroupsLine left) s bytes ellipsis (hex_group s 0 0)
      (hex_group-RestLine s 0 0)

finish-empty : (g : Groups) (bytes : List ℕ) → finish g ≡ some bytes → is_empty g.rest ≡ true
unfolding finish
finish-empty g bytes h = ground arith

groups_line :
    (s : Text) (o : Option Groups) (bytes : List ℕ)
    → GroupsLine s o
    → elim o [ none ↦ none | some g ↦ finish g ] ≡ some bytes
    → lacks b'\n' s ≡ true
groups_line s none bytes read h = cc
groups_line s (some g) bytes read h = read ∙ empty_line g.rest (finish-empty g bytes h)

-- The rest behind a leading ellipsis.
ellipsis_line :
    (s : Text) (o : Option (Text × Option ℕ)) (bytes : List ℕ)
    → leading_ellipsis s ≡ o
    → elim o [
      | none ↦ some (zeros 16)
      | some (s', ellipsis) ↦ elim (v6_loop 8 s' [] ellipsis) [ none ↦ none | some g ↦ finish g ]
    ]
      ≡ some bytes
    → lacks b'\n' s ≡ true
unfolding leading_ellipsis lacks
ellipsis_line [] o bytes e h = refl
ellipsis_line (c ∷ []) o bytes e h =
    groups_line (c ∷ []) (v6_loop 8 (c ∷ []) [] none) bytes (v6_loop-GroupsLine 8 (c ∷ []) [] none)
      (rw (← e) at h)
ellipsis_line (c ∷ d ∷ s) o bytes e h = elim (Bool-cases (eqb c b':' && eqb d b':')) [
  | inr q ↦
      groups_line (c ∷ d ∷ s) (v6_loop 8 (c ∷ d ∷ s) [] none) bytes
        (v6_loop-GroupsLine 8 (c ∷ d ∷ s) [] none) (rw (← e, q) at h)
  | inl q ↦
      colon_line c (d ∷ s) (ground arith)
      ∙ colon_line d s (ground arith)
      ∙ elim (Bool-cases (is_empty s)) [
        | inl done ↦ empty_line s done
        | inr more ↦
            groups_line s (v6_loop 8 s [] (some 0)) bytes (v6_loop-GroupsLine 8 s [] (some 0))
              (rw (← e, q, more) at h)
      ]
]

parse_ipv6_line : (s : Text) (bytes : List ℕ) → parse_ipv6 s ≡ some bytes → lacks b'\n' s ≡ true
unfolding parse_ipv6
parse_ipv6_line s bytes h = ellipsis_line s (leading_ellipsis s) bytes refl h

mapped_line :
    (s : Text) (o : Option (List ℕ)) (bytes : List ℕ)
    → parse_ipv4 s ≡ o
    → v4_bytes o ≡ some bytes
    → lacks b'\n' s ≡ true
unfolding v4_bytes
mapped_line s none bytes e h = cc
mapped_line s (some fields) bytes e h = parse_ipv4_line s fields e

parse_addr_line :
    (whole s : Text) (bytes : List ℕ) → parse_addr whole s ≡ some bytes → lacks b'\n' whole ≡ true
unfolding parse_addr
parse_addr_line whole [] bytes h = cc
parse_addr_line whole (c ∷ s) bytes h = ground (
  arith,
  parse_addr_line whole s bytes,
  parse_ipv6_line whole bytes,
  mapped_line whole (parse_ipv4 whole) bytes refl,
)

-- An address that net.ParseIP accepts has no newline.
pub parse_ip_line : (s : Text) (bytes : List ℕ) → parse_ip s ≡ some bytes → lacks b'\n' s ≡ true
unfolding parse_ip
parse_ip_line s bytes h = parse_addr_line s s bytes h
