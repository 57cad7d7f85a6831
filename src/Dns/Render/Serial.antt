-- ===== src/Dns/Render/Serial.antt =====
-- The serial of a rendered zone: `nextSerial` and its use in `RenderZone` of internal/dns/render.go.
use private_dns_operator.Prelude.{
  ℕ, ◌+◌, ◌<◌, ◌≡◌, refl, ap, sym, subst, false, List, [], ◌∷◌, ◌++◌, if◌then◌else◌, Option, none,
  some, is_empty, ltb, leb, arith, Option-cases, Bool-cases, inl, inr,
}
use private_dns_operator.Prelude.Int.{ℤ, is_positive}
use private_dns_operator.Text.{Text, ◌==◌, codes}
use private_dns_operator.Text.Eq.{eq_refl}
use private_dns_operator.Text.Decimal.{format_uint, parse_uint32, max_uint32}
use private_dns_operator.Text.Decimal.Laws.{format_uint-not_empty, parse_uint32-format_uint}
use private_dns_operator.Types.{PrivateDnsZone}
use private_dns_operator.Kube.{Result, ok, err}
use private_dns_operator.Dns.Domain.{normalize_zone}
use private_dns_operator.Dns.Record.{Record, ValidationError}
use private_dns_operator.Dns.RecordSet.{validate_records, deduplicate_and_sort}
use private_dns_operator.Dns.Render.{
  ZoneFile, PreviousRender, Day, two_digits, format_day, advances, next_serial, ttl_or_default,
  serial_for, zone_file, zone_body, render_checked, rendered, render_zone,
}

-- The text is a number of 32 bits that is greater than `p`.
abbrev pub Exceeds : Text → ℕ → Type 0
Exceeds serial p = (n : ℕ) × (parse_uint32 serial ≡ some n) × (p < n)

-- One more, printed.
incremented : (p : ℕ) → p < max_uint32 → Exceeds (format_uint (p + 1)) p
incremented p h = (p + 1, parse_uint32-format_uint (p + 1) (omega arith), omega arith)

-- The choice behind a previous serial that could be read.
abbrev chosen : Text → Option ℕ → ℕ → Text
chosen candidate value prev =
    if advances value prev
    then candidate
    else if leb max_uint32 prev
    then format_uint max_uint32
    else format_uint (prev + 1)

chosen-Exceeds :
    (candidate : Text) (value : Option ℕ) (p : ℕ)
    → parse_uint32 candidate ≡ value
    → p < max_uint32
    → Exceeds (chosen candidate value p) p
unfolding advances
chosen-Exceeds candidate none p e h =
    let small : leb max_uint32 p ≡ false = ground arith in rw small (incremented p h)
chosen-Exceeds candidate (some v) p e h = elim (Bool-cases (ltb p v)) [
  | inl more ↦ rw more (v, e, ground arith)
  | inr less ↦
      let small : leb max_uint32 p ≡ false = ground arith in rw (less, small) (incremented p h)
]

-- After a serial that is a number below the greatest of 32 bits, nextSerial returns a greater
-- number of 32 bits, whatever the clock says.
pub next_serial-Exceeds :
    (previous : Text) (now : Day) (p : ℕ)
    → parse_uint32 previous ≡ some p
    → p < max_uint32
    → Exceeds (next_serial previous now) p
unfolding next_serial
next_serial-Exceeds previous now p e h =
    rw (next_serial, e)
      (chosen-Exceeds (format_day now ++ codes "01") (parse_uint32 (format_day now ++ codes "01")) p
        refl h)

candidate-not_empty : (now : Day) → is_empty (format_day now ++ codes "01") ≡ false
unfolding format_day two_digits
candidate-not_empty now = refl

chosen-not_empty :
    (candidate : Text) (value : Option ℕ) (p : ℕ)
    → is_empty candidate ≡ false
    → is_empty (chosen candidate value p) ≡ false
chosen-not_empty candidate value p h =
    ground (arith, format_uint-not_empty max_uint32, format_uint-not_empty (p + 1))

next_serial-not_empty : (previous : Text) (now : Day) → is_empty (next_serial previous now) ≡ false
unfolding next_serial
next_serial-not_empty previous now = elim (Option-cases (parse_uint32 previous)) [
  | inl e ↦ rw (next_serial, e) (candidate-not_empty now)
  | inr (p, e) ↦
      rw (next_serial, e)
        (chosen-not_empty (format_day now ++ codes "01")
          (parse_uint32 (format_day now ++ codes "01")) p (candidate-not_empty now))
]

serial_for-not_empty :
    (hash : Text) (now : Day) (previous : PreviousRender)
    → is_empty (serial_for hash now previous) ≡ false
unfolding serial_for
serial_for-not_empty hash now previous = ground (arith, next_serial-not_empty previous.serial now)

-- A render that finds its own hash keeps the serial.
serial_for-kept :
    (hash serial : Text) (now : Day)
    → is_empty serial ≡ false
    → serial_for hash now (record { serial = serial; hash = hash }) ≡ serial
unfolding serial_for
serial_for-kept hash serial now h = ground (arith, eq_refl hash)

-- What a later render is given of an earlier one.
abbrev pub carried : ZoneFile → PreviousRender
carried file = record { serial = file.serial; hash = file.hash }

module _ (sha1_hex : Text → Text) where
  zone_file-stable :
      (zone body : Text) (now later : Day) (previous : PreviousRender)
      → zone_file sha1_hex zone body later (carried (zone_file sha1_hex zone body now previous))
        ≡ zone_file sha1_hex zone body now previous
  unfolding zone_file
  zone_file-stable zone body now later previous =
      let hash = sha1_hex body in
      rw
        (serial_for-kept hash (serial_for hash now previous) later
          (serial_for-not_empty hash now previous))
        refl

  same_file :
      (f g : ZoneFile) (later : PreviousRender → ZoneFile)
      → later (carried f) ≡ f
      → ◌≡◌ {A = Result ZoneFile} (ok f) (ok g)
      → ◌≡◌ {A = Result ZoneFile} (ok (later (carried g))) (ok g)
  same_file f g later h e =
      let e' : f ≡ g = cc in subst (λ x. ok (later (carried x)) ≡ ok x) e' (ap ok h)

  checked-stable :
      (es : List ValidationError) (zone : Text) (ttl : ℤ) (records : List Record) (now later : Day)
      (previous : PreviousRender) (file : ZoneFile)
      → render_checked sha1_hex es zone ttl records now previous ≡ ok file
      → render_checked sha1_hex es zone ttl records later (carried file) ≡ ok file
  unfolding render_checked
  checked-stable [] zone ttl records now later previous file h =
      same_file (zone_file sha1_hex zone (zone_body zone ttl records) now previous) file
        (zone_file sha1_hex zone (zone_body zone ttl records) later)
        (zone_file-stable zone (zone_body zone ttl records) now later previous) h
  checked-stable (e ∷ es) zone ttl records now later previous file h = cc

  rendered-stable :
      (normalized : Result Text) (ttl : ℤ) (records : List Record) (now later : Day)
      (previous : PreviousRender) (file : ZoneFile)
      → rendered sha1_hex normalized ttl records now previous ≡ ok file
      → rendered sha1_hex normalized ttl records later (carried file) ≡ ok file
  unfolding rendered
  rendered-stable (err e) ttl records now later previous file h = cc
  rendered-stable (ok n) ttl records now later previous file h =
      elim (Bool-cases (is_positive ttl)) [
        | inl e ↦ rw e (
            checked-stable (validate_records records) n ttl records now later previous file
              (rw e at h))
        | inr e ↦ absurd (let h' = rw e at h in cc)
      ]

  -- Where RenderZone returns a file, rendering the same zone and records with the serial and the
  -- hash of that file returns the same file on any later day, for any digest and where the map is
  -- ranged over in the same order.
  pub render_zone-stable :
      (order : List Record → List Record) (zone : PrivateDnsZone) (given : List Record)
      (now later : Day) (previous : PreviousRender) (file : ZoneFile)
      → render_zone sha1_hex order zone given now previous ≡ ok file
      → render_zone sha1_hex order zone given later (carried file) ≡ ok file
  unfolding render_zone
  render_zone-stable order zone given now later previous file h =
      rendered-stable (normalize_zone zone.spec.zone) (ttl_or_default zone.spec.ttl)
        (deduplicate_and_sort order given) now later previous file h

  checked-serial :
      (es : List ValidationError) (zone : Text) (ttl : ℤ) (records : List Record) (now : Day)
      (previous : PreviousRender) (file : ZoneFile)
      → render_checked sha1_hex es zone ttl records now previous ≡ ok file
      → file.serial ≡ serial_for file.hash now previous
  unfolding render_checked zone_file
  checked-serial [] zone ttl records now previous file h =
      let e : zone_file sha1_hex zone (zone_body zone ttl records) now previous ≡ file = cc in
      subst (λ f. f.serial ≡ serial_for f.hash now previous) e refl
  checked-serial (e ∷ es) zone ttl records now previous file h = cc

  rendered-serial :
      (normalized : Result Text) (ttl : ℤ) (records : List Record) (now : Day)
      (previous : PreviousRender) (file : ZoneFile)
      → rendered sha1_hex normalized ttl records now previous ≡ ok file
      → file.serial ≡ serial_for file.hash now previous
  unfolding rendered
  rendered-serial (err e) ttl records now previous file h = cc
  rendered-serial (ok n) ttl records now previous file h = elim (Bool-cases (is_positive ttl)) [
    | inl e ↦ checked-serial (validate_records records) n ttl records now previous file (rw e at h)
    | inr e ↦ absurd (let h' = rw e at h in cc)
  ]

  -- Where RenderZone returns a file whose hash differs from that of the last render, and the last
  -- serial is a number below the greatest of 32 bits, the new serial is a greater number, whatever
  -- the clock says.
  pub render_zone-Exceeds :
      (order : List Record → List Record) (zone : PrivateDnsZone) (given : List Record) (now : Day)
      (previous : PreviousRender) (file : ZoneFile) (p : ℕ)
      → render_zone sha1_hex order zone given now previous ≡ ok file
      → (file.hash == previous.hash) ≡ false
      → parse_uint32 previous.serial ≡ some p
      → p < max_uint32
      → Exceeds file.serial p
  unfolding render_zone serial_for
  render_zone-Exceeds order zone given now previous file p h changed e small =
      let serial =
        rendered-serial (normalize_zone zone.spec.zone) (ttl_or_default zone.spec.ttl)
          (deduplicate_and_sort order given) now previous file h in
      let is_next : file.serial ≡ next_serial previous.serial now = ground arith in
      subst (λ s. Exceeds s p) (sym is_next) (next_serial-Exceeds previous.serial now p e small)
