-- ===== src/Files/Ends.antt =====
-- A `save` is seven calls long, and returns if none of them raises, whatever other threads do.
use datasource_kit.Prelude.{
  ℕ, suc, ◌-◌, ◌≤◌, ◌==◌, ◌≡◌, inl, inr, refl, Bool, true, false, Bool-cases, ◌&&◌, ◌||◌, not,
  Option, none, some, List, [], ◌∷◌, arith, if◌then◌else◌,
}
use datasource_kit.Effect.{Exn, Result, ok, raised}
use datasource_kit.Files.Replace.{
  File, whole, load, Disk, Phase, entering, opening, dumping, flushing, syncing, replacing,
  cleaning, ended, unlink, step, System, advance, schedule,
}
use datasource_kit.Files.Crash.{begun, load_after_save}

-- how many calls the thread makes
abbrev pub calls : ℕ → List (ℕ × Option Exn) → ℕ
calls me [] = 0
calls me ((who, fault) ∷ rest) = let more = calls me rest in if who == me then suc more else more

abbrev returns : Option Exn → Bool
returns none = true
returns (some e) = false

-- none of the thread's calls raises
abbrev pub faultless : ℕ → List (ℕ × Option Exn) → Bool
faultless me [] = true
faultless me ((who, fault) ∷ rest) = (not (who == me) || returns fault) && faultless me rest

abbrev rank : Phase → ℕ
rank entering = 7
rank opening = 6
rank dumping = 5
rank flushing = 4
rank syncing = 3
rank replacing = 2
rank (cleaning r) = 1
rank (ended r) = 0

abbrev Fine : Phase → Type 0
Fine (cleaning (raised e)) = ⊥
Fine (ended (raised e)) = ⊥
Fine _ = Unit

rank_zero : (p : Phase) → rank p ≡ 0 → (r : Result Unit) × (p ≡ ended r)
rank_zero (ended r) e = (r, refl)
rank_zero entering e = absurd (omega arith)
rank_zero opening e = absurd (omega arith)
rank_zero dumping e = absurd (omega arith)
rank_zero flushing e = absurd (omega arith)
rank_zero syncing e = absurd (omega arith)
rank_zero replacing e = absurd (omega arith)
rank_zero (cleaning r) e = absurd (omega arith)

module _ {C : Type 0} where
  unlink-rank :
      (me : ℕ) (fault : Option Exn) (r : Result Unit) (f : Option (File C)) (d : Disk C)
      → rank (unlink me fault r f d).0 ≡ 0
  unlink-rank me (some e) r f d = refl
  unlink-rank me none r none d = refl
  unlink-rank me none r (some f) d = refl

  step-rank :
      (c : C) (me : ℕ) (fault : Option Exn) (p : Phase) (d : Disk C)
      → rank (step c me fault p d).0 ≤ rank p - 1
  unfolding step
  step-rank c me none entering d = omega arith
  step-rank c me none opening d = omega arith
  step-rank c me none dumping d = omega arith
  step-rank c me none flushing d = omega arith
  step-rank c me none syncing d = omega arith
  step-rank c me none replacing d = omega arith
  step-rank c me none (cleaning r) d = omega (arith, unlink-rank me none r (d.temps me) d)
  step-rank c me none (ended r) d = omega arith
  step-rank c me (some e) entering d = omega arith
  step-rank c me (some e) opening d = omega arith
  step-rank c me (some e) dumping d = omega arith
  step-rank c me (some e) flushing d = omega arith
  step-rank c me (some e) syncing d = omega arith
  step-rank c me (some e) replacing d = omega arith
  step-rank c me (some e) (cleaning r) d = omega arith
  step-rank c me (some e) (ended r) d = omega arith

  unlink-Fine :
      (me : ℕ) (r : Result Unit) (f : Option (File C)) (d : Disk C)
      → Fine (cleaning r)
      → Fine (unlink me none r f d).0
  unlink-Fine me (ok u) none d k = tt
  unlink-Fine me (ok u) (some f) d k = tt
  unlink-Fine me (raised e) f d k = absurd k

  step-Fine : (c : C) (me : ℕ) (p : Phase) (d : Disk C) → Fine p → Fine (step c me none p d).0
  unfolding step
  step-Fine c me entering d k = tt
  step-Fine c me opening d k = tt
  step-Fine c me dumping d k = tt
  step-Fine c me flushing d k = tt
  step-Fine c me syncing d k = tt
  step-Fine c me replacing d k = tt
  step-Fine c me (cleaning r) d k = unlink-Fine me r (d.temps me) d k
  step-Fine c me (ended r) d k = k

  module _ (payload : ℕ → C) where
    schedule-rank :
        (me : ℕ) (order : List (ℕ × Option Exn)) (s : System C)
        → rank ((schedule payload order s).phase me) ≤ rank (s.phase me) - calls me order
    unfolding schedule advance
    schedule-rank me [] s = omega arith
    schedule-rank me ((who, fault) ∷ order) s =
        let rest = schedule-rank me order (advance payload who fault s) in
        elim (Bool-cases (who == me)) [
          | inl same ↦
              let equal : who ≡ me = ground arith in
              let self : (me == me) ≡ true = ground arith in
              let mine = step-rank (payload me) me fault (s.phase me) s.disk in
              rw (equal, self) (omega (arith, mine, rw (equal, self) at rest))
          | inr differ ↦
              let other : (me == who) ≡ false = ground arith in rw differ (rw other at rest)
        ]

    schedule-Fine :
        (me : ℕ) (order : List (ℕ × Option Exn)) (s : System C)
        → faultless me order ≡ true
        → Fine (s.phase me)
        → Fine ((schedule payload order s).phase me)
    unfolding schedule advance
    schedule-Fine me [] s e k = k
    schedule-Fine me ((who, fault) ∷ order) s e k = elim (Bool-cases (who == me)) [
      | inl same ↦
          let equal : who ≡ me = ground arith in
          let self : (me == me) ≡ true = ground arith in
          mine fault equal (rw same at e) (λ t good. schedule-Fine me order t good)
      | inr differ ↦
          let other : (me == who) ≡ false = ground arith in
          schedule-Fine me order (advance payload who fault s) (rw differ at e) (rw other k)
    ]
      where
        mine :
            (f : Option Exn)
            → who ≡ me
            → (returns f && faultless me order) ≡ true
            → ((t : System C)
                → faultless me order ≡ true
                → Fine (t.phase me)
                → Fine ((schedule payload order t).phase me))
            → Fine ((schedule payload order (advance payload who f s)).phase me)
        mine none equal good rest =
            let self : (me == me) ≡ true = ground arith in
            rest (advance payload who none s) good
              (rw (equal, self) (step-Fine (payload me) me (s.phase me) s.disk k))
        mine (some x) equal good rest = absurd (ground arith)

    no_raise : (p : Phase) (r : Result Unit) → p ≡ ended r → Fine p → p ≡ ended (ok tt)
    no_raise p (ok tt) e k = e
    no_raise p (raised x) e k = absurd (rw e at k)

    -- Among any calls of other threads, a thread that makes seven calls is through with its `save`.
    pub save_ends :
        (me : ℕ) (order : List (ℕ × Option Exn)) (old : Option (File C))
        (temps : ℕ → Option (File C))
        → 7 ≤ calls me order
        → (r : Result Unit) × ((schedule payload order (begun payload old temps)).phase me
            ≡ ended r)
    save_ends me order old temps enough =
        let s = begun payload old temps in
        rank_zero ((schedule payload order s).phase me) (omega (arith, schedule-rank me order s))

    -- Where `json.load` reads back what `json.dump` wrote: a thread that makes seven calls, none of which
    -- raises, has returned from its `save`, whatever the calls of other threads do in between, and `load`
    -- gives the value of a thread.
    pub save_stores :
        (parse : File C → Result C) (me : ℕ) (order : List (ℕ × Option Exn)) (old : Option (File C))
        (temps : ℕ → Option (File C))
        → ((c : C) → parse (whole c) ≡ ok c)
        → 7 ≤ calls me order
        → faultless me order ≡ true
        → let s = schedule payload order (begun payload old temps) in
          (s.phase me ≡ ended (ok tt))
          × ((who : ℕ) × (load parse (s.disk).target ≡ ok (some (payload who))))
    save_stores parse me order old temps law enough good =
        let s = begun payload old temps in
        let (r, e) = save_ends me order old temps enough in
        let done =
          no_raise ((schedule payload order s).phase me) r e (schedule-Fine me order s good tt) in
        (done, load_after_save payload parse old temps order me law done)
