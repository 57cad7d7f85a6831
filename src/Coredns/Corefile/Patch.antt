-- ===== src/Coredns/Corefile/Patch.antt =====
-- The managed block of the Corefile: `PatchCorefile` and `removeManagedBlock` of
-- internal/coredns/corefile.go.
use private_dns_operator.Prelude.{
  ℕ, ◌≤◌, ◌≡◌, refl, ap, sym, ◌∙◌, false, List, [], ◌∷◌, ◌++◌, none, some, length, length-append,
  eqb, ltb, sort_by, all, arith, append_assoc,
}
use private_dns_operator.Text.{Text, codes}
use private_dns_operator.Text.Split.{lacks}
use private_dns_operator.Text.Replace.{index, take, drop}
use private_dns_operator.Text.Replace.Laws.{take-append, drop-append, index-append}
use private_dns_operator.Text.Trim.{trim_right}
use private_dns_operator.Text.Trim.Laws.{trim_right-snoc, trim_right-trim_right}
use private_dns_operator.Kube.{ok}
use private_dns_operator.Dns.Record.{Record}
use private_dns_operator.Coredns.Corefile.{
  ZoneDirective, managed_block_start, managed_block_end, zone_stanzas, directive_lt,
  render_managed_block, remove_between, remove_managed_block, with_block, patch_corefile,
}

-- The text in front of a block and the text in it have no marker of their own.
pub record IsMarked (front inner : Text) : Type 0 where
  pub no_start : index front managed_block_start ≡ none
  pub no_end : index (front ++ (managed_block_start ++ inner)) managed_block_end ≡ none

abbrev pub around : Text → Text → Text → Text
around front inner back = front ++ (managed_block_start ++ (inner ++ (managed_block_end ++ back)))

pub finds_start :
    (front rest : Text)
    → index front managed_block_start ≡ none
    → index (front ++ (managed_block_start ++ rest)) managed_block_start ≡ some (length front)
finds_start front rest h =
    index-append b'#' (codes " BEGIN private-dns-zone-operator") (unfold lacks all in refl) front
      rest h

finds_end :
    (front rest : Text)
    → index front managed_block_end ≡ none
    → index (front ++ (managed_block_end ++ rest)) managed_block_end ≡ some (length front)
finds_end front rest h =
    index-append b'#' (codes " END private-dns-zone-operator") (unfold lacks all in refl) front rest
      h

pub regroup : (f s i x : Text) → f ++ (s ++ (i ++ x)) ≡ (f ++ (s ++ i)) ++ x
regroup f s i x = sym (append_assoc f (s ++ i) x ∙ ap (λ (r : Text). f ++ r) (append_assoc s i x))

-- Its end is found behind all of its text.
pub finds_end_around :
    (front inner back : Text)
    → IsMarked front inner
    → index (around front inner back) managed_block_end
      ≡ some (length (front ++ (managed_block_start ++ inner)))
finds_end_around front inner back h =
    rw (regroup front managed_block_start inner (managed_block_end ++ back))
      (finds_end (front ++ (managed_block_start ++ inner)) back h.no_end)

removed :
    (corefile front rest group back : Text)
    → corefile ≡ front ++ rest
    → corefile ≡ (group ++ managed_block_end) ++ back
    → length front ≤ length group
    → remove_between corefile (some (length front)) (some (length group)) ≡ ok (front ++ back)
unfolding remove_between
removed corefile front rest group back e e' h =
    let in_order : ltb (length group) (length front) ≡ false = ground arith in
    let kept : take (length front) corefile ≡ front = rw e (take-append front rest) in
    let dropped : drop (length (group ++ managed_block_end)) corefile ≡ back =
      rw e' (drop-append (group ++ managed_block_end) back) in
    rw (in_order, kept, ← length-append group managed_block_end, dropped) refl

pub before_end :
    (front inner : Text) → length front ≤ length (front ++ (managed_block_start ++ inner))
before_end front inner = omega (arith, length-append front (managed_block_start ++ inner))

-- Where the text in front of the block has no start marker and the text before its end has no end
-- marker, removeManagedBlock takes out the block and keeps all that stands before and behind it.
pub remove_managed_block-around :
    (front inner back : Text)
    → IsMarked front inner
    → remove_managed_block (around front inner back) ≡ ok (front ++ back)
unfolding remove_managed_block
remove_managed_block-around front inner back h =
    let group = front ++ (managed_block_start ++ inner) in
    let same : around front inner back ≡ group ++ (managed_block_end ++ back) =
      regroup front managed_block_start inner (managed_block_end ++ back) in
    let start = finds_start front (inner ++ (managed_block_end ++ back)) h.no_start in
    let end_ = finds_end_around front inner back h in
    rw (remove_managed_block, start, end_)
      (removed (around front inner back) front
        (managed_block_start ++ (inner ++ (managed_block_end ++ back))) group back refl
        (same ∙ sym (append_assoc group managed_block_end back)) (before_end front inner))

-- What PatchCorefile puts in front of the block.
abbrev pub front_of : Text → Text
front_of stripped = trim_right (eqb b'\n') stripped ++ codes "\n\n"

-- The text of the block between its markers.
abbrev pub inner_of : (List Record → List Record) → List ZoneDirective → Text
inner_of order directives = zone_stanzas order (sort_by directive_lt directives) ++ codes "\n"

blocks_in_line :
    (t gap s z e x : Text) (nl : ℕ)
    → t ++ (gap ++ ((s ++ (z ++ nl ∷ e)) ++ x)) ≡ (t ++ gap) ++ (s ++ ((z ++ nl ∷ []) ++ (e ++ x)))
blocks_in_line t gap s z e x nl =
    rw
      (
        append_assoc s (z ++ nl ∷ e) x,
        append_assoc z (nl ∷ e) x,
        append_assoc t gap (s ++ ((z ++ nl ∷ []) ++ (e ++ x))),
        append_assoc z (nl ∷ []) (e ++ x),
      )
      refl

pub layout :
    (order : List Record → List Record) (stripped : Text) (directives : List ZoneDirective)
    → with_block (render_managed_block order directives) stripped
      ≡ around (front_of stripped) (inner_of order directives) (codes "\n")
unfolding with_block render_managed_block
layout order stripped directives =
    blocks_in_line (trim_right (eqb b'\n') stripped) (codes "\n\n") managed_block_start
      (zone_stanzas order (sort_by directive_lt directives)) managed_block_end (codes "\n") b'\n'

three_lines :
    (t : Text)
    → trim_right (eqb b'\n') ((t ++ codes "\n\n") ++ codes "\n") ≡ trim_right (eqb b'\n') t
three_lines t =
    trim_right-snoc (eqb b'\n') (t ++ codes "\n\n") b'\n' refl
    ∙ ap (trim_right (eqb b'\n')) (sym (append_assoc t (codes "\n") (codes "\n")))
    ∙ trim_right-snoc (eqb b'\n') (t ++ codes "\n") b'\n' refl
    ∙ trim_right-snoc (eqb b'\n') t b'\n' refl

same_front :
    (block stripped : Text)
    → with_block block (front_of stripped ++ codes "\n") ≡ with_block block stripped
unfolding with_block
same_front block stripped =
    ap (λ (t : Text). t ++ (codes "\n\n" ++ (block ++ codes "\n")))
      (three_lines (trim_right (eqb b'\n') stripped) ∙ trim_right-trim_right (eqb b'\n') stripped)

pub patch_of :
    (order : List Record → List Record) (corefile stripped : Text) (directives : List ZoneDirective)
    → remove_managed_block corefile ≡ ok stripped
    → patch_corefile order corefile directives
      ≡ ok (with_block (render_managed_block order directives) stripped)
unfolding patch_corefile
patch_of order corefile stripped directives e = rw (patch_corefile, e) refl

-- Where the managed block can be removed, the text in front of the rendered block has no start
-- marker and the text before its end has no end marker, PatchCorefile returns a Corefile, and
-- patching that one with any directives gives what patching the first Corefile with them gives.
pub patch_corefile-patch_corefile :
    (order : List Record → List Record) (corefile stripped : Text)
    (directives later : List ZoneDirective)
    → remove_managed_block corefile ≡ ok stripped
    → IsMarked (front_of stripped) (inner_of order directives)
    → (patched : Text) × (patch_corefile order corefile directives ≡ ok patched)
      × (patch_corefile order patched later ≡ patch_corefile order corefile later)
patch_corefile-patch_corefile order corefile stripped directives later e h =
    let patched = with_block (render_managed_block order directives) stripped in
    let left : remove_managed_block patched ≡ ok (front_of stripped ++ codes "\n") =
      rw (layout order stripped directives) (
        remove_managed_block-around (front_of stripped) (inner_of order directives) (codes "\n")
          h) in
    (
      patched,
      patch_of order corefile stripped directives e,
      patch_of order patched (front_of stripped ++ codes "\n") later left
          ∙ ap ok (same_front (render_managed_block order later) stripped)
          ∙ sym (patch_of order corefile stripped later e),
    )
