-- ===== src/Agent/Clipboard/Requests.antt =====
-- clipboard.rs: which format is asked for, and which answers count.
use win_xtend.Prelude.{
  ℕ, ◌<◌, ◌≡◌, refl, ap, ◌∙◌, Bool, true, false, ◌==◌, ◌&&◌, if◌then◌else◌, Option, none, some,
  List, [], ◌∷◌, arith, Bool-cases, map_or, inl, inr,
}
use win_xtend.Prelude.Maps.{lookup, lookup-insert, lookup-remove}
use win_xtend.Proto.Ids.{NodeId, node_key, node_eq_sound}
use win_xtend.Proto.Caps.{Capabilities}
use win_xtend.Agent.Clipboard.{
  ClipboardFormat, utf8_text, html, png, file_list, same_format, includes, supported_by, choose,
  ClipboardSync, new, same_request, answers, ask, settled,
}

pub data Request : Type 0 where
  asks : NodeId → ℕ → ClipboardFormat → Request
  settles : NodeId → Request

unfoldable pub after_requests : ClipboardSync → List Request → ClipboardSync
after_requests s [] = s
after_requests s (asks node serial format ∷ rs) = after_requests (ask s node serial format).0 rs
after_requests s (settles node ∷ rs) = after_requests (settled s node) rs

-- The last request to a node that is not settled, read off the history.
unfoldable pub outstanding :
    NodeId → Option (ℕ × ClipboardFormat) → List Request → Option (ℕ × ClipboardFormat)
outstanding n last [] = last
outstanding n last (asks node serial format ∷ rs) =
    outstanding n (if node == n then some (serial, format) else last) rs
outstanding n last (settles node ∷ rs) = outstanding n (if node == n then none else last) rs

same_format_sound : (f g : ClipboardFormat) → same_format f g ≡ true → f ≡ g
unfolding same_format
same_format_sound utf8_text utf8_text h = refl
same_format_sound html html h = refl
same_format_sound png png h = refl
same_format_sound file_list file_list h = refl
same_format_sound f g h = ground arith

same_request_sound : (a b : ℕ × ClipboardFormat) → same_request a b ≡ true → a ≡ b
same_request_sound (m, f) (n, g) h = ground (arith, same_format_sound f g)

answered :
    (found : Option (ℕ × ClipboardFormat)) (r : ℕ × ClipboardFormat)
    → map_or false (λ q. same_request q r) found ≡ true
    → found ≡ some r
answered none r h = absurd (ground arith)
answered (some q) r h = ap some (same_request_sound q r h)

-- A repeated request changes nothing because it is the outstanding one.
ask-asked :
    (s : ClipboardSync) (node n : NodeId) (serial : ℕ) (format : ClipboardFormat)
    → lookup n (ask s node serial format).0.asked
      ≡ (if node == n then some (serial, format) else lookup n s.asked)
unfolding ask answers
ask-asked s node n serial format = elim (Bool-cases (answers s node serial format)) [
  | inl again ↦
      ground (arith, answered (lookup node s.asked) (serial, format) again, node_eq_sound node n)
  | inr fresh ↦ rw (fresh, ask) (lookup-insert node n (serial, format) s.asked)
]

asked_lem :
    (s : ClipboardSync) (n : NodeId) (rs : List Request)
    → lookup n (after_requests s rs).asked ≡ outstanding n (lookup n s.asked) rs
unfolding after_requests outstanding
asked_lem s n [] = refl
asked_lem s n (asks node serial format ∷ rs) =
    asked_lem (ask s node serial format).0 n rs
    ∙ ap (λ t. outstanding n t rs) (ask-asked s node n serial format)
asked_lem s n (settles node ∷ rs) =
    asked_lem (settled s node) n rs
    ∙ ap (λ t. outstanding n t rs) (unfold settled in lookup-remove node n s.asked)

-- Over any history of requests sent and settled, a payload is accepted from a node exactly when it
-- has the serial and the format of the last request to that node, and nothing has settled that
-- request since. What goes on with other nodes makes no difference.
pub answers-outstanding :
    (n : NodeId) (rs : List Request) (serial : ℕ) (format : ClipboardFormat)
    → answers (after_requests new rs) n serial format
      ≡ map_or false (λ r. same_request r (serial, format)) (outstanding n none rs)
unfolding answers new
answers-outstanding n rs serial format =
    ap (map_or false (λ r. same_request r (serial, format))) (asked_lem new n rs)

-- How rich a format is; 0 is the richest.
abbrev pub rank : ClipboardFormat → ℕ
rank png = 0
rank html = 1
rank utf8_text = 2
rank file_list = 3

-- The format can go from the peer that offered it to this machine.
abbrev pub usable : List ClipboardFormat → Capabilities → Capabilities → ClipboardFormat → Bool
usable offered local peer f = includes offered f && (supported_by local f && supported_by peer f)

-- What is asked for is on offer and supported by both machines, and nothing richer is; and when
-- nothing is asked for, no format is on offer and supported by both.
pub choose-richest :
    (offered : List ClipboardFormat) (local peer : Capabilities) (g : ClipboardFormat)
    → map_or
        (usable offered local peer g ≡ false)
        (λ f.
          (usable offered local peer f ≡ true)
          × (rank g < rank f → usable offered local peer g ≡ false))
        (choose offered local peer)
unfolding choose supported_by
choose-richest offered local peer png = ground arith
choose-richest offered local peer html = ground arith
choose-richest offered local peer utf8_text = ground arith
choose-richest offered local peer file_list = ground arith
