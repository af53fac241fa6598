-- ===== src/Ledger/Window.antt =====
-- ledger.py: `DiscoveryLedgerStore.write_window`.
use Prim.Native.String.{◌++◌ as text_append}
use text.Mathlib.TextLemmas.{append_assoc as text_assoc, append-nil as text_nil, append-eq-nil_iff}
use text.Mathlib.Text.{◌==◌ as str_eq}
use text.Mathlib.TextEquality.{eq_iff}
use datasource_kit.Prelude.{
  ◌≡◌, ◌≢◌, refl, sym, ap, ◌∙◌, ◌⊎◌, inl, inr, Bool-cases, String, List, [], ◌∷◌, map,
  if◌then◌else◌,
}
use datasource_kit.Effect.{Result, ok, raised, Action, pure, lift, ◌>>=◌, ◌>>◌}
use datasource_kit.Ledger.Items.{DiscoveredItem}
use datasource_kit.Ledger.Summary.{LedgerSummary, summarise}
use datasource_kit.Ledger.Atomic.{
  Folder, Write, Files, Disk, call, call-target, put, atomic_write, Put, atomic_write-Put,
}

-- `"\n".join(lines)`
unfoldable pub join_lines : List String → String
join_lines [] = ""
join_lines (x ∷ []) = x
join_lines (x ∷ y ∷ rest) = text_append x (text_append "\n" (join_lines (y ∷ rest)))

-- the text of the file: `jsonl + "\n"`, if it is not empty
unfoldable pub jsonl : List String → String
jsonl lines =
    let joined = join_lines lines in if str_eq joined "" then joined else text_append joined "\n"

-- every line with its line end
abbrev pub terminated : List String → String
terminated [] = ""
terminated (x ∷ rest) = text_append x (text_append "\n" (terminated rest))

join_terminated :
    (x : String) (rest : List String)
    → text_append (join_lines (x ∷ rest)) "\n" ≡ terminated (x ∷ rest)
unfolding join_lines
join_terminated x [] = ap (text_append x) (sym (text_nil "\n"))
join_terminated x (y ∷ rest) =
    text_assoc x (text_append "\n" (join_lines (y ∷ rest))) "\n"
    ∙ ap (text_append x) (
        text_assoc "\n" (join_lines (y ∷ rest)) "\n"
        ∙ ap (text_append "\n") (join_terminated y rest))

join_nonempty : (x : String) (rest : List String) → x ≢ "" → join_lines (x ∷ rest) ≢ ""
unfolding join_lines
join_nonempty x [] ne e = ne e
join_nonempty x (y ∷ rest) ne e = ne ((append-eq-nil_iff.0 e).0)

-- Where no item is written as the empty text, the file has every item on a line of its own, each with
-- its line end, in the items' order.
pub jsonl-terminated :
    {A : Type 0} (dumps : A → String) (items : List A)
    → ((i : A) → dumps i ≢ "")
    → jsonl (map dumps items) ≡ terminated (map dumps items)
unfolding jsonl join_lines
jsonl-terminated dumps [] some_text = refl
jsonl-terminated dumps (i ∷ rest) some_text =
    elim (Bool-cases (str_eq (join_lines (map dumps (i ∷ rest))) "")) [
      | inl empty ↦ absurd (
          join_nonempty (dumps i) (map dumps rest) (some_text i)
            ((eq_iff (join_lines (map dumps (i ∷ rest))) "").0 empty))
      | inr full ↦ rw (jsonl, full) (join_terminated (dumps i) (map dumps rest))
    ]

-- the two uses of `json.dumps`, on metadata that it can write
pub record Dumps (V : Type 0) : Type 0 where
  pub dump_item : DiscoveredItem V → String
  pub dump_summary : LedgerSummary → String

module _ {V : Type 0} (dumps : Dumps V) where
  abbrev pub items_file : Folder → String → List (DiscoveredItem V) → Write
  items_file folder run_id items = record {
    folder = folder;
    name = text_append run_id ".jsonl";
    content = jsonl (map dumps.dump_item items);
  }

  abbrev pub summary_file : Folder → List (DiscoveredItem V) → Write
  summary_file folder items = record {
    folder = folder;
    name = "summary.json";
    content = dumps.dump_summary (summarise items);
  }

  -- `write_window`; its first call is `folder.mkdir`
  unfoldable pub write_window :
      Folder → String → List (DiscoveredItem V) → Action Disk LedgerSummary
  write_window folder run_id items = do
    call
    atomic_write (items_file folder run_id items)
    atomic_write (summary_file folder items)
    pure (summarise items)

-- What has changed in the files: both are in place if the call returned; neither, the first or both if it
-- raised.
abbrev pub Written : Files → Write → Write → LedgerSummary → Result LedgerSummary → Files → Type 0
Written before f g s (ok r) after = (r ≡ s) × (after ≡ put g (put f before))
Written before f g s (raised e) after =
    (after ≡ before) ⊎ ((after ≡ put f before) ⊎ (after ≡ put g (put f before)))

after_summary :
    (before : Files) (f g : Write) (s : LedgerSummary) (r : Result (Unit {0})) (w w' : Disk)
    → w.target ≡ put f before
    → Put w.target g r w'.target
    → let out = (lift r >>= λ _. pure s) w' in Written before f g s out.0 (out.1).target
after_summary before f g s (ok u) w w' e k = (refl, k ∙ ap (put g) e)
after_summary before f g s (raised x) w w' e (inl k) = inr (inl (k ∙ e))
after_summary before f g s (raised x) w w' e (inr k) = inr (inr (k ∙ ap (put g) e))

after_items :
    (before : Files) (f g : Write) (s : LedgerSummary) (r : Result (Unit {0})) (w w' : Disk)
    → w.target ≡ before
    → Put w.target f r w'.target
    → let out = (lift r >>= λ _. atomic_write g >>= λ _. pure s) w' in
      Written before f g s out.0 (out.1).target
after_items before f g s (ok u) w w' e k =
    let (r, w'') = atomic_write g w' in
    after_summary before f g s r w' w'' (k ∙ ap (put f) e) (atomic_write-Put g w')
after_items before f g s (raised x) w w' e (inl k) = inl (k ∙ e)
after_items before f g s (raised x) w w' e (inr k) = inr (inl (k ∙ ap (put f) e))

after_mkdir :
    (before : Files) (f g : Write) (s : LedgerSummary) (r : Result (Unit {0})) (w : Disk)
    → w.target ≡ before
    → let out = (lift r >>= λ _. atomic_write f >>= λ _. atomic_write g >>= λ _. pure s) w in
      Written before f g s out.0 (out.1).target
after_mkdir before f g s (ok u) w e =
    let (r, w') = atomic_write f w in after_items before f g s r w w' e (atomic_write-Put f w)
after_mkdir before f g s (raised x) w e = inl e

-- Whatever is raised at whichever of the calls of `write_window`, and whatever files there were: a call
-- that returns has put the whole text of the items' file and of the summary in place, has changed no
-- other file, and hands back the summary of the items; one that raises has put in place neither of the
-- two, the whole items' file alone, or both, and never a part of a file or the summary alone.
pub write_window_lem :
    {V : Type 0} (dumps : Dumps V) (folder : Folder) (run_id : String)
    (items : List (DiscoveredItem V)) (w : Disk)
    → Written w.target
        (items_file dumps folder run_id items)
        (summary_file dumps folder items)
        (summarise items)
        (write_window dumps folder run_id items w).0
        ((write_window dumps folder run_id items w).1).target
unfolding write_window
write_window_lem dumps folder run_id items w =
    let (r, w') = call w in
    after_mkdir w.target (items_file dumps folder run_id items) (summary_file dumps folder items)
      (summarise items) r w' (call-target w)
