-- ===== src/Ledger/Tests.antt =====
-- A window with three items, whose summary cannot be flushed.
use text.Mathlib.Text.{◌==◌ as str_eq}
use datasource_kit.Prelude.{ℕ, ◌+◌, ◌≡◌, refl, Bool, none, some, String, List, [], ◌∷◌}
use datasource_kit.Prelude.Dict.{Dict, lookup}
use datasource_kit.Effect.{os_error, Result, ok, raised, Holds}
use datasource_kit.Ledger.Items.{
  Raw, str, other, DiscoveredItem, item_of, or_empty, text_or_none, mapping_or_empty,
  item_from_json, item_as_dict, from_json-as_dict,
}
use datasource_kit.Ledger.Summary.{LedgerSummary, summarise, summarise_lem}
use datasource_kit.Ledger.Atomic.{
  Folder, Disk, whole, call, write_text, write_temp, clean, Put, atomic_write, atomic_write_lem,
}
use datasource_kit.Ledger.Window.{
  Dumps, jsonl, join_lines, items_file, summary_file, write_window, Written, write_window_lem,
}

abbrev item : String → String → DiscoveredItem ℕ
item source_id status = record {
  source_id = source_id;
  status = status;
  url = none;
  metadata = ("n", 1) ∷ [];
}

abbrev items : List (DiscoveredItem ℕ)
items = item "a" "fetched" ∷ item "b" "failed" ∷ item "c" "seen" ∷ []

abbrev blank : String → Bool
blank s = str_eq s ""

abbrev raw : Dict (Raw ℕ)
raw = ("status", str "fetched") ∷ ("source_id", str "a") ∷ ("url", other Bool.true) ∷ []

read : item_from_json blank raw ≡ ok (record (item "a" "fetched") { metadata = [] })
unfolding item_from_json item_of lookup or_empty text_or_none mapping_or_empty
read = refl

from_json-as_dict_example :
    item_from_json blank (item_as_dict (record (item "a" "fetched") { metadata = [] }))
    ≡ ok (record (item "a" "fetched") { metadata = [] })
from_json-as_dict_example =
    from_json-as_dict blank raw (record (item "a" "fetched") { metadata = [] }) read

abbrev line : DiscoveredItem ℕ → String
line i = i.source_id

abbrev dumps : String → String
dumps s = Prim.Native.String.◌++◌ "{" s

summarise_lem_example :
    let s = summarise items in
    (s.discovered ≡ 3)
    × (s.fetched ≡ 1)
    × (s.merged ≡ 0)
    × (s.failed ≡ 1)
    × (s.skipped ≡ 0)
    × (s.pending ≡ 0)
    × (s.fetched + s.merged + s.failed + s.skipped + s.pending + 1 ≡ s.discovered)
summarise_lem_example = summarise_lem items

abbrev writer : Dumps ℕ
writer = record { dump_item = line; dump_summary = λ s. "{}" }

abbrev folder : Folder
folder = record { source = "s"; window_key = "2024-01" }

-- The items' file is written; the `flush` of the summary raises.
abbrev disk : Disk
disk = record {
  target = λ d n. none;
  temps = λ d n. none;
  faults = none ∷ none ∷ none ∷ none ∷ none ∷ none ∷ none ∷ none ∷ none ∷ none ∷ some os_error ∷ [];
}

abbrev left : Result LedgerSummary × Disk
left = write_window writer folder "r" items disk

flush_raised : left.0 ≡ raised os_error
unfolding write_window atomic_write write_temp write_text clean call
flush_raised = refl

items_whole : (left.1).target folder "r.jsonl" ≡ some (whole "a\nb\nc\n")
unfolding write_window atomic_write write_temp write_text clean call jsonl join_lines
items_whole = refl

no_summary : (left.1).target folder "summary.json" ≡ none
unfolding write_window atomic_write write_temp write_text clean call
no_summary = refl

write_window_lem_example :
    Written disk.target
      (items_file writer folder "r" items)
      (summary_file writer folder items)
      (summarise items)
      left.0
      (left.1).target
write_window_lem_example = write_window_lem writer folder "r" items disk

atomic_write_lem_example :
    let f = items_file writer folder "r" items in
    let out = atomic_write f disk in
    Put disk.target f out.0 (out.1).target × Holds (λ _. (out.1).temps f.folder f.name ≡ none) out.0
atomic_write_lem_example = atomic_write_lem (items_file writer folder "r" items) disk
