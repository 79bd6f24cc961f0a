-- ===== src/Tests/Sharing.antt =====
-- The theorems on the clipboard, the automatic layout and the wire version at concrete inputs.
use win_xtend.Prelude.{
  ℕ, zero, suc, ◌≤◌, ◌≡◌, refl, ◌==◌, false, not, Option, none, some, List, [], ◌∷◌, length, keep,
  any_of, ◌&&◌, if◌then◌else◌, map_or, arith,
}
use win_xtend.Prelude.Int.{pos}
use win_xtend.Core.Layout.{iter}
use win_xtend.Agent.AutoLayout.{forget_node}
use win_xtend.Agent.AutoLayout.Forget.{iter-forget_node}
use win_xtend.Agent.Clipboard.{
  ClipboardFormat, same_format, includes, synced, html, png, utf8_text, ClipboardSync, observe,
  judge, serve, read, stale, new, answers, same_request, compress, decompress, ok, WriteBack,
}
use win_xtend.Agent.Clipboard.Echo.{Poll, offer-serve}
use win_xtend.Agent.Clipboard.Payload.{decompress-compress}
use win_xtend.Agent.Clipboard.Requests.{
  asks, settles, after_requests, outstanding, answers-outstanding,
}
use win_xtend.Tests.Fixed.{Milli, fixed}
use win_xtend.Tests.Places.{
  here_rect, desk, desk_wire, here_placement, there_placement, desk-IsIndexed,
}
use win_xtend.Core.Layout.{WireLayout}
use win_xtend.Agent.Engine.{accept_layout}
use win_xtend.Agent.Engine.Gossip.{Level, takes, takes_meet}

-- The selection as this machine last saw it, serial 4, and text on the clipboard at serial 5.
abbrev watching : ClipboardSync
watching = record {
  seen = some (record { serial = 4; formats = utf8_text ∷ [] });
  write_back = none;
  asked = [];
}

abbrev digests : ClipboardFormat → Option ℕ
digests f = some 77

abbrev polls : List Poll
polls =
    record { serial = 6; formats = utf8_text ∷ []; digest = digests }
    ∷ record { serial = 5; formats = []; digest = digests }
    ∷ []

-- Something else is copied here then.
abbrev copied : Poll
copied = record { serial = 7; formats = html ∷ []; digest = digests }

abbrev written : WriteBack
written = record { serial = 5; format = utf8_text; digest = 77 }

offer-serve_example :
    serve (observe watching 5 (html ∷ []) digests).0 5 html
    ≡ (if 5 == 5 && (includes synced html && includes (html ∷ []) html) then read html else stale)
unfolding observe judge same_format
offer-serve_example = offer-serve watching 5 (html ∷ []) digests 5 (html ∷ []) refl 5 html

answers-outstanding_example :
    answers (after_requests new (asks 2 5 png ∷ settles 3 ∷ [])) 2 5 png
    ≡ map_or false
        (λ r. same_request r (5, png))
        (outstanding 2 none (asks 2 5 png ∷ settles 3 ∷ []))
answers-outstanding_example = answers-outstanding 2 (asks 2 5 png ∷ settles 3 ∷ []) 5 png

-- A compressor that drops a leading 0.
abbrev pack : List ℕ → Option (List ℕ)
pack (zero ∷ rest) = some rest
pack _ = none

abbrev unpack : List ℕ → ℕ → Option (List ℕ)
unpack packed limit = some (0 ∷ packed)

pack_inverse :
    (bytes packed : List ℕ) (limit : ℕ)
    → pack bytes ≡ some packed
    → length bytes ≤ limit
    → unpack packed limit ≡ some bytes
pack_inverse [] packed limit h k = absurd (ground arith)
pack_inverse (zero ∷ rest) packed limit h k = ground arith
pack_inverse (suc n ∷ rest) packed limit h k = absurd (ground arith)

decompress-compress_example :
    (decompress unpack
        (compress pack html (0 ∷ 8 ∷ 9 ∷ [])).0
        (compress pack html (0 ∷ 8 ∷ 9 ∷ [])).1
      ≡ ok (0 ∷ 8 ∷ 9 ∷ []))
    × (length (compress pack html (0 ∷ 8 ∷ 9 ∷ [])).1 ≤ 3)
decompress-compress_example =
    decompress-compress pack unpack pack_inverse html (0 ∷ 8 ∷ 9 ∷ []) (omega arith)

iter-forget_node_example :
    (iter (forget_node desk 2).0 ≡ keep (λ p. not (p.monitor.node == 2)) (iter desk))
    × ((forget_node desk 2).1 ≡ any_of (λ p. p.monitor.node == 2) (iter desk))
iter-forget_node_example = iter-forget_node desk 2 desk-IsIndexed

-- The desk as the other machine would place it: the same screens, the sides swapped.
abbrev mirrored : WireLayout Milli
mirrored = record {
  placements =
      record there_placement { global_bounds = here_rect }
      ∷ record here_placement {
        global_bounds = record there_placement.global_bounds { x = pos 100 };
      }
      ∷ [];
  revision = 1;
}

takes_meet_example :
    Level (takes desk_wire mirrored) (takes mirrored desk_wire)
    × (accept_layout desk_wire mirrored && accept_layout mirrored desk_wire ≡ false)
    × (accept_layout (takes desk_wire mirrored) (takes mirrored desk_wire) ≡ false)
    × (accept_layout (takes mirrored desk_wire) (takes desk_wire mirrored) ≡ false)
takes_meet_example = takes_meet desk_wire mirrored
