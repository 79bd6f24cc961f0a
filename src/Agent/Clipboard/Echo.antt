-- ===== src/Agent/Clipboard/Echo.antt =====
-- clipboard.rs: polls of the clipboard after a write for a peer, and requests after an offer.
use win_xtend.Prelude.{
  ℕ, ◌≡◌, refl, ◌∙◌, inl, inr, Bool, true, false, ◌==◌, ◌&&◌, if◌then◌else◌, Option, none, some,
  not, ◌||◌, map_or, map_option, any_of, List, [], ◌∷◌, arith, Bool-cases, Option-cases,
}
use win_xtend.Agent.Clipboard.{
  ClipboardFormat, same_format, includes, synced, syncable, LocalChange, offer, read, stale,
  Snapshot, WriteBack, ClipboardSync, observe, judge, announce, is_echo, serve,
}

-- One look at the clipboard: its serial, its formats, and what a read in a format hashes to.
pub record Poll : Type 0 where
  pub serial : ℕ
  pub formats : List ClipboardFormat
  pub digest : ClipboardFormat → Option ℕ

-- What a row of polls finds.
unfoldable pub observe_all : ClipboardSync → List Poll → List LocalChange
observe_all s [] = []
observe_all s (p ∷ ps) =
    let (s', change) = observe s p.serial p.formats p.digest in change ∷ observe_all s' ps

abbrev pub is_offer : LocalChange → Bool
is_offer (offer serial formats) = true
is_offer _ = false

abbrev pub after_polls : ClipboardSync → List Poll → ClipboardSync
after_polls s [] = s
after_polls s (p ∷ ps) = after_polls (observe s p.serial p.formats p.digest).0 ps

-- The serial that the last look found, before and after a row of polls.
abbrev pub last_serial : Option ℕ → List Poll → Option ℕ
last_serial before [] = before
last_serial before (p ∷ ps) = last_serial (some p.serial) ps

-- There was a look before, and it found another serial.
abbrev pub moved : Option ℕ → Poll → Bool
moved before p = map_or false (λ n. not (n == p.serial)) before

-- The poll shows what the write put there: the serial it produced, or its bytes.
abbrev pub shows : WriteBack → Poll → Bool
shows w p =
    p.serial == w.serial
    || (includes p.formats w.format && map_or false (λ d. d == w.digest) (p.digest w.format))

includes-syncable :
    (formats : List ClipboardFormat) (f : ClipboardFormat)
    → includes (syncable formats) f ≡ (includes synced f && includes formats f)
unfolding same_format
includes-syncable formats ClipboardFormat.utf8_text = ground arith
includes-syncable formats ClipboardFormat.html = ground arith
includes-syncable formats ClipboardFormat.png = ground arith
includes-syncable formats ClipboardFormat.file_list = ground arith

seen_serial : ClipboardSync → Option ℕ
seen_serial s = map_option (λ (x : Snapshot). x.serial) s.seen

-- One poll while a write is guarded: what it answers, whether it spends the guard, and what it has
-- seen.
Polled : ClipboardSync → WriteBack → Option ℕ → Poll → Type 0
Polled s w before p =
    let (s', change) = observe s p.serial p.formats p.digest in
    (is_offer change ≡ (moved before p && (not (shows w p) && any_of (includes p.formats) synced)))
    × (s'.write_back ≡ (if moved before p && not (shows w p) then none else some w))
    × (seen_serial s' ≡ some p.serial)

announce-offer :
    (n serial : ℕ) (fs formats : List ClipboardFormat)
    → announce serial fs ≡ offer n formats
    → (n ≡ serial) × (formats ≡ fs)
announce-offer n serial [] formats h = absurd (ground arith)
announce-offer n serial (f ∷ fs) formats h = ground arith

judge-offer :
    (s : ClipboardSync) (serial : ℕ) (fs : List ClipboardFormat)
    → (digest : ClipboardFormat → Option ℕ) (w : Option WriteBack)
    → (n : ℕ) (formats : List ClipboardFormat) → (judge s serial fs digest w).1 ≡ offer n formats
    → (n ≡ serial) × (formats ≡ fs) × ((judge s serial fs digest w).0.seen ≡ s.seen)
unfolding judge
judge-offer s serial fs digest none n formats h =
    let (a, b) = announce-offer n serial fs formats h in (a, b, refl)
judge-offer s serial fs digest (some w) n formats h =
    elim (Bool-cases (is_echo serial fs digest w)) [
      | inl echoed ↦ absurd (ground arith)
      | inr fresh ↦
          let (a, b) = announce-offer n serial fs formats (rw fresh at h) in (a, b, rw fresh refl)
    ]

serve_offered :
    (s : ClipboardSync) (serial : ℕ) (formats : List ClipboardFormat) (m : ℕ) (g : ClipboardFormat)
    → s.seen ≡ some (record { serial = serial; formats = formats })
    → serve s m g ≡ (if serial == m && includes formats g then read g else stale)
unfolding serve
serve_offered s serial formats m g e = rw e refl

observe-offer :
    (s : ClipboardSync) (serial : ℕ) (formats : List ClipboardFormat)
    → (digest : ClipboardFormat → Option ℕ) (n : ℕ) (fs : List ClipboardFormat)
    → (observe s serial formats digest).1 ≡ offer n fs
    → (n ≡ serial)
      × (fs ≡ syncable formats)
      × ((observe s serial formats digest).0.seen
          ≡ some (record { serial = serial; formats = syncable formats }))
unfolding observe
observe-offer s serial formats digest n fs h = elim (Option-cases s.seen) [
  | inl first ↦ absurd (ground arith)
  | inr (old, e) ↦ elim (Bool-cases (old.serial == serial)) [
    | inl same ↦ absurd (ground arith)
    | inr other ↦
        rw (e, observe, other)
          (judge-offer _ serial (syncable formats) digest s.write_back n fs
            (rw (e, observe, other) at h))
  ]
]

-- What a poll offers is what is then served: after an offer of the serial `n`, a request is answered
-- with a read exactly when it names that serial and a format that is on the clipboard and
-- synchronised; any other request is stale.
pub offer-serve :
    (s : ClipboardSync) (serial : ℕ) (formats : List ClipboardFormat)
    → (digest : ClipboardFormat → Option ℕ) (n : ℕ) (fs : List ClipboardFormat)
    → (observe s serial formats digest).1 ≡ offer n fs
    → (m : ℕ) (g : ClipboardFormat)
    → serve (observe s serial formats digest).0 m g
      ≡ (if n == m && (includes synced g && includes formats g) then read g else stale)
offer-serve s serial formats digest n fs h m g =
    let (same, listed, seen) = observe-offer s serial formats digest n fs h in
    serve_offered (observe s serial formats digest).0 serial (syncable formats) m g seen
    ∙ rw (includes-syncable formats g, same) refl
