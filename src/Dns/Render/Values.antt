-- ===== src/Dns/Render/Values.antt =====
-- The values of records in a zone file are on one line each.
use private_dns_operator.Prelude.{
  ℕ, ◌≡◌, refl, ap, Bool, true, false, not, List, [], ◌∷◌, ◌++◌, Option, none, some, all, arith,
  Option-cases, inl, inr,
}
use private_dns_operator.Text.{Text}
use private_dns_operator.Text.Split.{join}
use private_dns_operator.Text.Trim.{is_space, trim_space, fields}
use private_dns_operator.Text.Trim.Laws.{trim-trim}
use private_dns_operator.Types.{DnsRecordType, a, aaaa, cname, txt, mx, srv, other}
use private_dns_operator.Net.{parse_ip, is_to4}
use private_dns_operator.Net.Chars.{parse_ip_line}
use private_dns_operator.Dns.Record.{
  is_ipv4, is_ipv6, validate_mx, validate_srv, validate_trimmed, validate_value,
}
use private_dns_operator.Dns.Render.{ensure_trailing_dot, render_mx, render_srv, render_value}
use private_dns_operator.Dns.Render.Chars.{
  is_line, line-append, line-cons, domain_line, quote-line, fields-line, ensure_trailing_dot-line,
}

address_line :
    (s : Text) (accepted : Option (List ℕ) → Bool)
    → accepted none ≡ false
    → accepted (parse_ip s) ≡ true
    → is_line s ≡ true
address_line s accepted refuses h = elim (Option-cases (parse_ip s)) [
  | inl e ↦ let refused = ap accepted e in cc
  | inr (ip, e) ↦ parse_ip_line s ip e
]

ipv4_line : (s : Text) → is_ipv4 s ≡ true → is_line s ≡ true
unfolding is_ipv4
ipv4_line s h = address_line s (λ o. elim o [ none ↦ false | some ip ↦ is_to4 ip ]) refl h

ipv6_line : (s : Text) → is_ipv6 s ≡ true → is_line s ≡ true
unfolding is_ipv6
ipv6_line s h = address_line s (λ o. elim o [ none ↦ false | some ip ↦ not (is_to4 ip) ]) refl h

mx_line :
    (value : Text) (parts : List Text)
    → all is_line parts ≡ true
    → validate_mx value parts ≡ none
    → is_line (render_mx value parts) ≡ true
unfolding validate_mx render_mx all
mx_line value [] h v = cc
mx_line value (p ∷ []) h v = cc
mx_line value (priority ∷ host ∷ []) h v =
    line-append priority (b' ' ∷ ensure_trailing_dot host) (ground arith) (
      line-cons b' ' (ensure_trailing_dot host) refl (ensure_trailing_dot-line host (ground arith)))
mx_line value (p ∷ q ∷ r ∷ ps) h v = cc

srv_line :
    (value : Text) (parts : List Text)
    → all is_line parts ≡ true
    → validate_srv value parts ≡ none
    → is_line (render_srv value parts) ≡ true
unfolding validate_srv render_srv join all
srv_line value [] h v = cc
srv_line value (p ∷ []) h v = cc
srv_line value (p ∷ q ∷ []) h v = cc
srv_line value (p ∷ q ∷ r ∷ []) h v = cc
srv_line value (priority ∷ weight ∷ port ∷ target ∷ []) h v =
    let last = ensure_trailing_dot-line target (ground arith) in
    let numbers = line-append priority (b' ' ∷ weight ++ b' ' ∷ port) (ground arith) (
      line-cons b' ' (weight ++ b' ' ∷ port) refl (
        line-append weight (b' ' ∷ port) (ground arith)
          (line-cons b' ' port refl (ground arith)))) in
    line-append (join (priority ∷ weight ∷ port ∷ []) b' ') (b' ' ∷ ensure_trailing_dot target)
      numbers (line-cons b' ' (ensure_trailing_dot target) refl last)
srv_line value (p ∷ q ∷ r ∷ s ∷ t ∷ ps) h v = cc

-- A value that validateValue accepts is written on one line.
pub render_value-line :
    (t : DnsRecordType) (given : Text)
    → validate_value t given ≡ none
    → is_line (render_value t given) ≡ true
unfolding validate_value validate_trimmed render_value
render_value-line a given h = ground (arith, ipv4_line (trim_space given))
render_value-line aaaa given h = ground (arith, ipv6_line (trim_space given))
render_value-line cname given h =
    ensure_trailing_dot-line (trim_space given)
      (domain_line (trim_space given) (unfold trim_space in trim-trim is_space given) h)
render_value-line txt given h = quote-line (trim_space given)
render_value-line mx given h =
    mx_line (trim_space given) (fields (trim_space given)) (fields-line (trim_space given)) h
render_value-line srv given h =
    srv_line (trim_space given) (fields (trim_space given)) (fields-line (trim_space given)) h
render_value-line (other name) given h = cc
