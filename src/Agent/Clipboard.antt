-- ===== src/Agent/Clipboard.antt =====
-- crates/wx-agent/src/clipboard.rs: which clipboard content is offered to peers, served and asked
-- for. The compressor (zstd) and the read of the clipboard are parameters.
pub mod Echo
pub mod Requests
pub mod Payload
use Prim.Native.Nat.{bit_xor}
use win_xtend.Prelude.{
  ℕ, ◌+◌, ◌-◌, ◌*◌, ◌/◌, ◌%◌, ◌^◌, min, max, Bool, true, false, ◌&&◌, ◌==◌, ltb, if◌then◌else◌,
  Option, none, some, map_or, map_option, List, [], ◌∷◌, ◌++◌, length, take, drop, keep, find_first,
  any_of, is_some, ℕ_discrete,
}
use win_xtend.Prelude.Maps.{lookup, insert, remove}
use win_xtend.Proto.Ids.{NodeId, node_key}
use win_xtend.Proto.Caps.{Capabilities, contains, clipboard_text, clipboard_image}

pub data ClipboardFormat : Type 0 where
  utf8_text html png file_list : ClipboardFormat

pub ClipboardFormat-discrete : Discrete ClipboardFormat
ClipboardFormat-discrete = hlevel

unfoldable pub same_format : ClipboardFormat → ClipboardFormat → Bool
same_format utf8_text utf8_text = true
same_format html html = true
same_format png png = true
same_format file_list file_list = true
same_format _ _ = false

abbrev pub includes : List ClipboardFormat → ClipboardFormat → Bool
includes fs f = any_of (same_format f) fs

abbrev pub synced : List ClipboardFormat
synced = png ∷ html ∷ utf8_text ∷ []

abbrev pub capability_for : ClipboardFormat → Option Capabilities
capability_for utf8_text = some clipboard_text
capability_for html = some clipboard_text
capability_for png = some clipboard_image
capability_for file_list = none

unfoldable pub supported_by : Capabilities → ClipboardFormat → Bool
supported_by caps format = map_or false (λ cap. contains caps cap) (capability_for format)

abbrev pub fingerprint_sample : ℕ
fingerprint_sample = 64 * 1024

-- FNV-1a on u64.
unfoldable pub eat : ℕ → List ℕ → ℕ
eat hash [] = hash
eat hash (byte ∷ chunk) = eat (bit_xor hash byte * 1099511628211 % 2 ^ 64) chunk

abbrev pub fnv_offset : ℕ
fnv_offset = 14695981039346656037

-- `u64::to_le_bytes`.
abbrev pub u64_bytes : ℕ → List ℕ
u64_bytes n =
    n % 256
    ∷ n / 2 ^ 8 % 256
    ∷ n / 2 ^ 16 % 256
    ∷ n / 2 ^ 24 % 256
    ∷ n / 2 ^ 32 % 256
    ∷ n / 2 ^ 40 % 256
    ∷ n / 2 ^ 48 % 256
    ∷ n / 2 ^ 56 % 256
    ∷ []

-- The length, a sample from the front and a sample from the back.
unfoldable pub fingerprint : List ℕ → ℕ
fingerprint bytes =
    let head = min (length bytes) fingerprint_sample in
    let tail = max (length bytes - fingerprint_sample) head in
    eat (eat (eat fnv_offset (u64_bytes (length bytes))) (take head bytes)) (drop tail bytes)

pub data Compression : Type 0 where
  uncompressed zstd : Compression

abbrev is_already_compressed : ClipboardFormat → Bool
is_already_compressed png = true
is_already_compressed _ = false

-- The limit of crates/wx-proto/src/codec.rs.
abbrev pub max_clipboard_bytes : ℕ
max_clipboard_bytes = 32 * 1024 * 1024 - 64

pub data PayloadError : Type 0 where
  too_large : ℕ → PayloadError
  corrupt : PayloadError

pub data Recovered : Type 0 where
  ok : List ℕ → Recovered
  err : PayloadError → Recovered

-- `zstd::bulk::compress` at the level the source uses.
unfoldable pub compress :
    (List ℕ → Option (List ℕ)) → ClipboardFormat → List ℕ → Compression × List ℕ
compress pack format payload =
    if is_already_compressed format then (uncompressed, payload) else elim (pack payload) [
      | none ↦ (uncompressed, payload)
      | some packed ↦
          if ltb (length packed) (length payload) then (zstd, packed) else (uncompressed, payload)
    ]

-- `zstd::bulk::decompress`, which takes the largest size it may expand to.
unfoldable pub decompress : (List ℕ → ℕ → Option (List ℕ)) → Compression → List ℕ → Recovered
decompress unpack uncompressed payload =
    if ltb max_clipboard_bytes (length payload)
    then err (too_large (length payload))
    else ok payload
decompress unpack zstd payload = elim (unpack payload max_clipboard_bytes) [
  | none ↦ err corrupt
  | some raw ↦ ok raw
]

pub data LocalChange : Type 0 where
  unchanged first_sighting echo nothing_to_offer : LocalChange
  offer : ℕ → List ClipboardFormat → LocalChange

pub data Serve : Type 0 where
  read : ClipboardFormat → Serve
  stale : Serve

pub record Snapshot : Type 0 where
  pub serial : ℕ
  pub formats : List ClipboardFormat

pub record WriteBack : Type 0 where
  pub serial : ℕ
  pub format : ClipboardFormat
  pub digest : ℕ

pub record ClipboardSync : Type 0 where
  pub seen : Option Snapshot
  pub write_back : Option WriteBack
  pub asked : List (NodeId × (ℕ × ClipboardFormat))

unfoldable pub new : ClipboardSync
new = record { seen = none; write_back = none; asked = [] }

abbrev pub syncable : List ClipboardFormat → List ClipboardFormat
syncable formats = keep (includes formats) synced

-- The end of `observe`: what is not an echo is offered, if any of it is synchronised.
abbrev pub announce : ℕ → List ClipboardFormat → LocalChange
announce serial [] = nothing_to_offer
announce serial (f ∷ fs) = offer serial (f ∷ fs)

-- The two tests by which content is known for this agent's own write.
abbrev pub is_echo : ℕ → List ClipboardFormat → (ClipboardFormat → Option ℕ) → WriteBack → Bool
is_echo serial formats digest w =
    if serial == w.serial
    then true
    else if includes formats w.format
    then map_or false (λ d. d == w.digest) (digest w.format)
    else false

-- `observe` behind the two early returns.
unfoldable pub judge :
    ClipboardSync
    → ℕ
    → List ClipboardFormat
    → (ClipboardFormat → Option ℕ)
    → Option WriteBack
    → ClipboardSync × LocalChange
judge s serial formats digest none = (s, announce serial formats)
judge s serial formats digest (some w) =
    if is_echo serial formats digest w
    then (s, echo)
    else (record s { write_back = none }, announce serial formats)

-- `digest` reads the clipboard in one format.
unfoldable pub observe :
    ClipboardSync
    → ℕ
    → List ClipboardFormat
    → (ClipboardFormat → Option ℕ)
    → ClipboardSync × LocalChange
observe s serial formats digest =
    let s' = record s { seen = some (record { serial = serial; formats = syncable formats }) } in
    elim s.seen [
      | none ↦ (s', first_sighting)
      | some old ↦
          if old.serial == serial
          then (s, unchanged)
          else judge s' serial (syncable formats) digest s.write_back
    ]

abbrev serve_seen : ℕ → ClipboardFormat → Option Snapshot → Serve
serve_seen serial format none = stale
serve_seen serial format (some seen) =
    if seen.serial == serial && includes seen.formats format then read format else stale

unfoldable pub serve : ClipboardSync → ℕ → ClipboardFormat → Serve
serve s serial format = serve_seen serial format s.seen

unfoldable pub choose : List ClipboardFormat → Capabilities → Capabilities → Option ClipboardFormat
choose offered local peer =
    find_first (λ f. includes offered f && (supported_by local f && supported_by peer f)) synced

abbrev pub same_request : ℕ × ClipboardFormat → ℕ × ClipboardFormat → Bool
same_request a b = a.0 == b.0 && same_format a.1 b.1

unfoldable pub answers : ClipboardSync → NodeId → ℕ → ClipboardFormat → Bool
answers s node serial format =
    map_or false (λ r. same_request r (serial, format)) (lookup node s.asked)

unfoldable pub ask : ClipboardSync → NodeId → ℕ → ClipboardFormat → ClipboardSync × Bool
unfolding answers
ask s node serial format =
    if answers s node serial format
    then (s, false)
    else (record s { asked = insert node (serial, format) s.asked }, true)

unfoldable pub settled : ClipboardSync → NodeId → ClipboardSync
settled s node = record s { asked = remove node s.asked }

unfoldable pub writing : ClipboardSync → ClipboardFormat → ℕ → ClipboardSync
writing s format digest = record s {
  write_back =
      some (record {
        serial = map_or 0 (λ seen. seen.serial) s.seen;
        format = format;
        digest = digest;
      });
}

unfoldable pub wrote : ClipboardSync → ℕ → ClipboardSync
wrote s serial = record s {
  write_back = map_option {A = WriteBack} (λ w. record w { serial = serial }) s.write_back;
}

unfoldable pub write_failed : ClipboardSync → ClipboardSync
write_failed s = record s { write_back = none }
