-- ===== src/Ledger/Summary.antt =====
-- ledger.py: `LedgerSummary` and `DiscoveryLedgerStore._summary`.
use text.Mathlib.Text.{◌==◌ as str_eq}
use text.Mathlib.TextEquality.{eq_iff}
use datasource_kit.Prelude.{
  ℕ, ◌+◌, ◌≡◌, ◌∙◌, refl, true, false, String, List, [], ◌∷◌, arith, length, if◌then◌else◌, ◌||◌,
}
use datasource_kit.Prelude.Dict.{Dict}
use datasource_kit.Ledger.Items.{DiscoveredItem}

pub record LedgerSummary : Type 0 where
  pub discovered : ℕ
  pub fetched : ℕ
  pub merged : ℕ
  pub failed : ℕ
  pub skipped : ℕ
  pub pending : ℕ

-- `LedgerSummary.as_dict`
unfoldable pub summary_as_dict : LedgerSummary → Dict ℕ
summary_as_dict s =
    ("discovered", s.discovered)
    ∷ ("fetched", s.fetched)
    ∷ ("merged", s.merged)
    ∷ ("failed", s.failed)
    ∷ ("skipped", s.skipped)
    ∷ ("pending", s.pending)
    ∷ []

-- `setattr(summary, status, getattr(summary, status) + 1)`, if the status is one of the five
unfoldable pub counted : String → LedgerSummary → LedgerSummary
counted status s =
    if str_eq status "fetched"
    then record s { fetched = s.fetched + 1 }
    else if str_eq status "merged"
    then record s { merged = s.merged + 1 }
    else if str_eq status "failed"
    then record s { failed = s.failed + 1 }
    else if str_eq status "skipped"
    then record s { skipped = s.skipped + 1 }
    else if str_eq status "pending"
    then record s { pending = s.pending + 1 }
    else s

abbrev hit : String → String → ℕ
hit expected status = if str_eq status expected then 1 else 0

abbrev miss : String → ℕ
miss status =
    if str_eq status "fetched"
      || (str_eq status "merged"
          || (str_eq status "failed" || (str_eq status "skipped" || str_eq status "pending")))
    then 0
    else 1

record Hit (status : String) (s s' : LedgerSummary) : Type 0 where
  discovered : s'.discovered ≡ s.discovered
  fetched : s'.fetched ≡ s.fetched + hit "fetched" status
  merged : s'.merged ≡ s.merged + hit "merged" status
  failed : s'.failed ≡ s.failed + hit "failed" status
  skipped : s'.skipped ≡ s.skipped + hit "skipped" status
  pending : s'.pending ≡ s.pending + hit "pending" status
  partition :
      s'.fetched + s'.merged + s'.failed + s'.skipped + s'.pending + miss status
      ≡ s.fetched + s.merged + s.failed + s.skipped + s.pending + 1

exclusive :
    (a b status : String) → str_eq a b ≡ false → str_eq status a ≡ true → str_eq status b ≡ false
exclusive a b status e h = rw ((eq_iff status a).0 h) e

counted-Hit : (status : String) (s : LedgerSummary) → Hit status s (counted status s)
unfolding counted
counted-Hit status s =
    let x0 = exclusive "fetched" "merged" status refl in
    let x1 = exclusive "fetched" "failed" status refl in
    let x2 = exclusive "fetched" "skipped" status refl in
    let x3 = exclusive "fetched" "pending" status refl in
    let x4 = exclusive "merged" "failed" status refl in
    let x5 = exclusive "merged" "skipped" status refl in
    let x6 = exclusive "merged" "pending" status refl in
    let x7 = exclusive "failed" "skipped" status refl in
    let x8 = exclusive "failed" "pending" status refl in
    let x9 = exclusive "skipped" "pending" status refl in
    record {
      discovered = ground arith;
      fetched = ground arith;
      merged = ground arith;
      failed = ground arith;
      skipped = ground arith;
      pending = ground arith;
      partition = ground arith;
    }

module _ {V : Type 0} where
  -- the loop over the items
  unfoldable pub count_all : List (DiscoveredItem V) → LedgerSummary → LedgerSummary
  count_all [] s = s
  count_all (i ∷ is) s = count_all is (counted i.status s)

  -- `LedgerSummary(discovered=len(items))`
  abbrev pub zeroed : List (DiscoveredItem V) → LedgerSummary
  zeroed items = record {
    discovered = length items;
    fetched = 0;
    merged = 0;
    failed = 0;
    skipped = 0;
    pending = 0;
  }

  -- `_summary`
  unfoldable pub summarise : List (DiscoveredItem V) → LedgerSummary
  summarise items = count_all items (zeroed items)

  -- how many of the items have the status
  abbrev pub tally : String → List (DiscoveredItem V) → ℕ
  tally status [] = 0
  tally status (i ∷ is) = hit status i.status + tally status is

  -- how many have none of the five
  abbrev pub unclassified : List (DiscoveredItem V) → ℕ
  unclassified [] = 0
  unclassified (i ∷ is) = miss i.status + unclassified is

  record Counts (items : List (DiscoveredItem V)) (s s' : LedgerSummary) : Type 0 where
    discovered : s'.discovered ≡ s.discovered
    fetched : s'.fetched ≡ s.fetched + tally "fetched" items
    merged : s'.merged ≡ s.merged + tally "merged" items
    failed : s'.failed ≡ s.failed + tally "failed" items
    skipped : s'.skipped ≡ s.skipped + tally "skipped" items
    pending : s'.pending ≡ s.pending + tally "pending" items
    partition :
        s'.fetched + s'.merged + s'.failed + s'.skipped + s'.pending + unclassified items
        ≡ s.fetched + s.merged + s.failed + s.skipped + s.pending + length items

  count_all-Counts :
      (items : List (DiscoveredItem V)) (s : LedgerSummary) → Counts items s (count_all items s)
  unfolding count_all counted
  count_all-Counts [] s = record {
    discovered = refl;
    fetched = omega arith;
    merged = omega arith;
    failed = omega arith;
    skipped = omega arith;
    pending = omega arith;
    partition = omega arith;
  }
  count_all-Counts (i ∷ is) s =
      let k = count_all-Counts is (counted i.status s) in
      let one = counted-Hit i.status s in
      record {
        discovered = k.discovered ∙ one.discovered;
        fetched = ground (arith, k.fetched, one.fetched);
        merged = ground (arith, k.merged, one.merged);
        failed = ground (arith, k.failed, one.failed);
        skipped = ground (arith, k.skipped, one.skipped);
        pending = ground (arith, k.pending, one.pending);
        partition = ground (arith, k.partition, one.partition);
      }

  -- The summary counts every item once in `discovered`, in each of the other five counts exactly the items
  -- with that status, and no item in two of them: together with the items of other statuses they make up
  -- `discovered`.
  pub summarise_lem :
      (items : List (DiscoveredItem V))
      → let s = summarise items in
        (s.discovered ≡ length items)
        × (s.fetched ≡ tally "fetched" items)
        × (s.merged ≡ tally "merged" items)
        × (s.failed ≡ tally "failed" items)
        × (s.skipped ≡ tally "skipped" items)
        × (s.pending ≡ tally "pending" items)
        × (s.fetched + s.merged + s.failed + s.skipped + s.pending + unclassified items
            ≡ s.discovered)
  unfolding summarise
  summarise_lem items =
      let k = count_all-Counts items (zeroed items) in
      (
        k.discovered,
        omega (arith, k.fetched),
        omega (arith, k.merged),
        omega (arith, k.failed),
        omega (arith, k.skipped),
        omega (arith, k.pending),
        omega (arith, k.partition, k.discovered),
      )
