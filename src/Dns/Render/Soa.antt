-- ===== src/Dns/Render/Soa.antt =====
-- The serial of a zone file: `strings.Replace` of the placeholder in `RenderZone` of
-- internal/dns/render.go.
use private_dns_operator.Prelude.{
  subst, ℕ, zero, suc, ◌+◌, ◌/◌, ◌%◌, ◌≡◌, refl, ap, sym, ◌∙◌, true, List, [], ◌∷◌, ◌++◌, all,
  append_assoc, arith, Bool-cases, inl, inr,
}
use private_dns_operator.Prelude.Int.{ℤ, pos, negsuc, is_positive}
use private_dns_operator.Text.{Text, codes}
use private_dns_operator.Text.Split.{lacks}
use private_dns_operator.Text.Decimal.{digits, format_uint, itoa}
use private_dns_operator.Text.Replace.{replace_first, drop}
use private_dns_operator.Text.Trim.{has_prefix}
use private_dns_operator.Types.{PrivateDnsZone}
use private_dns_operator.Kube.{Result, ok, err}
use private_dns_operator.Dns.Domain.{label_char, normalize_zone}
use private_dns_operator.Dns.Domain.Names.{domain_char, domain_chars_dot, normalize_zone-IsNormal}
use private_dns_operator.Dns.Record.{Record, ValidationError}
use private_dns_operator.Dns.RecordSet.{validate_records, deduplicate_and_sort}
use private_dns_operator.Dns.Render.{
  ZoneFile, PreviousRender, Day, serial_placeholder, zone_head, zone_tail, zone_body, zone_file,
  ttl_or_default, render_checked, rendered, render_zone,
}

-- The content of a file is the lines for its zone and records around its serial.
abbrev pub IsWritten : Text → ℤ → List Record → ZoneFile → Type 0
IsWritten zone ttl records file =
    file.content ≡ zone_head zone ttl ++ (file.serial ++ zone_tail zone records)

-- No placeholder starts in the text, whatever follows it.
abbrev Passes : Text → Text → Type 0
Passes new s =
    (rest : Text)
    → replace_first (s ++ rest) serial_placeholder new
      ≡ s ++ replace_first rest serial_placeholder new

module _ (new : Text) where
  append-Passes : (s t : Text) → Passes new s → Passes new t → Passes new (s ++ t)
  append-Passes s t hs ht rest =
      rw (append_assoc s t rest, hs (t ++ rest), ht rest)
        (sym (append_assoc s t (replace_first rest serial_placeholder new)))

  lacking-Passes : (s : Text) → lacks b'@' s ≡ true → Passes new s
  unfolding lacks all replace_first has_prefix
  lacking-Passes [] h rest = refl
  lacking-Passes (c ∷ s) h rest =
      ground (arith, λ (k : lacks b'@' s ≡ true). lacking-Passes s k rest)

  origin-Passes : Passes new (codes "$ORIGIN ")
  unfolding replace_first has_prefix
  origin-Passes rest = refl

  ttl-Passes : Passes new (codes "\n$TTL ")
  unfolding replace_first has_prefix
  ttl-Passes rest = refl

  soa-Passes : Passes new (codes "\n@ IN SOA ns.dns.")
  unfolding replace_first has_prefix
  soa-Passes rest = refl

  hostmaster-Passes : Passes new (codes " hostmaster.")
  unfolding replace_first has_prefix
  hostmaster-Passes rest = refl

  open-Passes : Passes new (codes " (\n  ")
  unfolding replace_first has_prefix
  open-Passes rest = refl

  replaced :
      (rest : Text)
      → replace_first (serial_placeholder ++ rest) serial_placeholder new ≡ new ++ rest
  unfolding replace_first has_prefix drop
  replaced rest = refl

digits-lacks :
    (fuel n : ℕ) (out : Text) → lacks b'@' out ≡ true → lacks b'@' (digits fuel n out) ≡ true
unfolding digits lacks all
digits-lacks zero n out h = h
digits-lacks (suc fuel) n out h =
    let new : lacks b'@' ((b'0' + n % 10) ∷ out) ≡ true = ground arith in
    ground (arith, new, digits-lacks fuel (n / 10) ((b'0' + n % 10) ∷ out) new)

itoa-lacks : (n : ℤ) → lacks b'@' (itoa n) ≡ true
unfolding itoa format_uint lacks all
itoa-lacks (pos n) = digits-lacks (suc n) n [] refl
itoa-lacks (negsuc n) = digits-lacks (suc (suc n)) (suc n) [] refl

domain-lacks : (s : Text) → all domain_char s ≡ true → lacks b'@' s ≡ true
unfolding lacks all label_char
domain-lacks [] h = refl
domain-lacks (c ∷ s) h = ground (arith, domain-lacks s)

normalized-lacks : (given zone : Text) → normalize_zone given ≡ ok zone → lacks b'@' zone ≡ true
normalized-lacks given zone h =
    let normal = normalize_zone-IsNormal given zone h in
    let stem = normal.form.stem in
    let valid = rw normal.form.shape at normal.valid in
    let chars : all domain_char zone ≡ true = rw normal.form.shape (domain_chars_dot stem valid) in
    domain-lacks zone chars

module _ (new zone : Text) (ttl : ℤ) (clean : lacks b'@' zone ≡ true) where
  zone-Passes : Passes new zone
  zone-Passes = lacking-Passes new zone clean

  zone_head-Passes : Passes new (zone_head zone ttl)
  unfolding zone_head
  zone_head-Passes =
      let then_open = append-Passes new zone (codes " (\n  ") zone-Passes (open-Passes new) in
      let then_hostmaster =
        append-Passes new (codes " hostmaster.") _ (hostmaster-Passes new) then_open in
      let then_zone = append-Passes new zone _ zone-Passes then_hostmaster in
      let then_soa = append-Passes new (codes "\n@ IN SOA ns.dns.") _ (soa-Passes new) then_zone in
      let then_number =
        append-Passes new (itoa ttl) _ (lacking-Passes new (itoa ttl) (itoa-lacks ttl)) then_soa in
      let then_ttl = append-Passes new (codes "\n$TTL ") _ (ttl-Passes new) then_number in
      append-Passes new (codes "$ORIGIN ") _ (origin-Passes new)
        (append-Passes new zone _ zone-Passes then_ttl)

  zone_body-replaced :
      (records : List Record)
      → replace_first (zone_body zone ttl records) serial_placeholder new
        ≡ zone_head zone ttl ++ (new ++ zone_tail zone records)
  unfolding zone_body
  zone_body-replaced records =
      zone_head-Passes (serial_placeholder ++ zone_tail zone records)
      ∙ ap (λ (s : Text). zone_head zone ttl ++ s) (replaced new (zone_tail zone records))

module _ (sha1_hex : Text → Text) where
  checked-IsWritten :
      (es : List ValidationError) (zone : Text) (ttl : ℤ) (records : List Record) (now : Day)
      (previous : PreviousRender) (file : ZoneFile)
      → lacks b'@' zone ≡ true
      → render_checked sha1_hex es zone ttl records now previous ≡ ok file
      → IsWritten zone ttl records file
  unfolding render_checked zone_file
  checked-IsWritten [] zone ttl records now previous file clean h =
      let made = zone_file sha1_hex zone (zone_body zone ttl records) now previous in
      let e : made ≡ file = cc in
      subst (IsWritten zone ttl records) e (zone_body-replaced made.serial zone ttl clean records)
  checked-IsWritten (e ∷ es) zone ttl records now previous file clean h = cc

  rendered-IsWritten :
      (normalized : Result Text) (ttl : ℤ) (records : List Record) (now : Day)
      (previous : PreviousRender) (file : ZoneFile)
      → ((zone : Text) → normalized ≡ ok zone → lacks b'@' zone ≡ true)
      → rendered sha1_hex normalized ttl records now previous ≡ ok file
      → (zone : Text) × (normalized ≡ ok zone) × IsWritten zone ttl records file
  unfolding rendered
  rendered-IsWritten (err e) ttl records now previous file clean h = cc
  rendered-IsWritten (ok n) ttl records now previous file clean h =
      elim (Bool-cases (is_positive ttl)) [
        | inl e ↦ (
          n,
          refl,
          checked-IsWritten (validate_records records) n ttl records now previous file
              (clean n refl) (rw e at h),
        )
        | inr e ↦ absurd (let h' = rw e at h in cc)
      ]

  -- Where RenderZone returns a file, the name of the zone is one that NormalizeZone accepts, and
  -- the content is the lines for this name, the TTL and the deduplicated records with the serial
  -- of the file in the place of the placeholder, the only text that is replaced.
  pub render_zone-IsWritten :
      (order : List Record → List Record) (zone : PrivateDnsZone) (given : List Record) (now : Day)
      (previous : PreviousRender) (file : ZoneFile)
      → render_zone sha1_hex order zone given now previous ≡ ok file
      → (name : Text) × (normalize_zone zone.spec.zone ≡ ok name)
        × IsWritten name (ttl_or_default zone.spec.ttl) (deduplicate_and_sort order given) file
  unfolding render_zone
  render_zone-IsWritten order zone given now previous file h =
      rendered-IsWritten (normalize_zone zone.spec.zone) (ttl_or_default zone.spec.ttl)
        (deduplicate_and_sort order given) now previous file (normalized-lacks zone.spec.zone) h
