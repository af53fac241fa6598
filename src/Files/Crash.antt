-- ===== src/Files/Crash.antt =====
-- What the target holds while any number of threads save to it, whichever calls raise and whenever the
-- machine stops.
use datasource_kit.Prelude.{
  ℕ, ◌==◌, ◌≡◌, ◌≢◌, ◌⊎◌, inl, inr, refl, sym, ap, ◌∙◌, true, false, Bool-cases, Option, none, some,
  List, [], ◌∷◌, arith,
}
use datasource_kit.Effect.{Exn, Result, ok, raised}
use datasource_kit.Files.Replace.{
  File, partial, whole, Disk, Phase, entering, opening, dumping, flushing, syncing, replacing,
  cleaning, ended, put_temp, unlink, step, load, System, advance, schedule,
}

module _ {C : Type 0} (payload : ℕ → C) where
  -- The target is what it was, or the whole value of some thread.
  abbrev pub OldOrNew : Option (File C) → Option (File C) → Type 0
  OldOrNew old now = (now ≡ old) ⊎ (who : ℕ) × (now ≡ some (whole (payload who)))

  abbrev New : Option (File C) → Type 0
  New now = (who : ℕ) × (now ≡ some (whole (payload who)))

  -- What the place of a thread says of its temporary file and of the target.
  abbrev Placed : ℕ → Phase → Disk C → Type 0
  Placed me syncing d = d.temps me ≡ some (whole (payload me))
  Placed me replacing d = d.temps me ≡ some (whole (payload me))
  Placed me (cleaning (ok _)) d = New d.target
  Placed me (ended (ok _)) d = New d.target
  Placed me _ d = Unit

  pub record Sound (old : Option (File C)) (s : System C) : Type 0 where
    pub target : OldOrNew old (s.disk).target
    pub placed : (who : ℕ) → Placed who (s.phase who) s.disk

  -- The thread's own step, and what it leaves of the others' files.
  record Stepped (me : ℕ) (old : Option (File C)) (d : Disk C) (out : Phase × Disk C) : Type 0 where
    target : OldOrNew old (out.1).target
    placed : Placed me out.0 out.1
    new_stays : New d.target → New (out.1).target
    others : (who : ℕ) → who ≢ me → (out.1).temps who ≡ d.temps who

  apart : (who me : ℕ) → who ≢ me → (who == me) ≡ false
  apart who me ne = ground (arith, ne)

  self : (me : ℕ) → (me == me) ≡ true
  self me = ground arith

  -- a step that leaves the disk alone
  idle :
      (old : Option (File C)) (me : ℕ) (p : Phase) (d : Disk C)
      → OldOrNew old d.target
      → Placed me p d
      → Stepped me old d (p, d)
  idle old me p d t k = record {
    target = t;
    placed = k;
    new_stays = λ n. n;
    others = λ who ne. refl;
  }

  -- a step that writes or removes the thread's temporary file
  touching :
      (old : Option (File C)) (me : ℕ) (p : Phase) (f : Option (File C)) (d : Disk C)
      → OldOrNew old d.target
      → Placed me p (put_temp me f d)
      → Stepped me old d (p, put_temp me f d)
  touching old me p f d t k = record {
    target = t;
    placed = k;
    new_stays = λ n. n;
    others = λ who ne. rw (apart who me ne) refl;
  }

  still_new :
      (me : ℕ) (r : Result Unit) (d d' : Disk C)
      → d.target ≡ d'.target
      → Placed me (cleaning r) d
      → Placed me (ended r) d'
  still_new me (ok u) d d' e k = (k.0, sym e ∙ k.1)
  still_new me (raised x) d d' e k = tt

  unlink-Stepped :
      (old : Option (File C)) (me : ℕ) (fault : Option Exn) (r : Result Unit) (f : Option (File C))
      (d : Disk C)
      → OldOrNew old d.target
      → Placed me (cleaning r) d
      → Stepped me old d (unlink me fault r f d)
  unlink-Stepped old me (some e) r f d t k = idle old me (ended (raised e)) d t tt
  unlink-Stepped old me none r none d t k = idle old me (ended r) d t (still_new me r d d refl k)
  unlink-Stepped old me none r (some f) d t k =
      touching old me (ended r) none d t (still_new me r d (put_temp me none d) refl k)

  replaced :
      (old : Option (File C)) (me : ℕ) (d : Disk C)
      → d.temps me ≡ some (whole (payload me))
      → Stepped me old d (step (payload me) me none replacing d)
  unfolding step
  replaced old me d k = record {
    target = inr (me, k);
    placed = (me, k);
    new_stays = λ n. (me, k);
    others = λ who ne. rw (apart who me ne) refl;
  }

  step-Stepped :
      (old : Option (File C)) (me : ℕ) (fault : Option Exn) (p : Phase) (d : Disk C)
      → OldOrNew old d.target
      → Placed me p d
      → Stepped me old d (step (payload me) me fault p d)
  unfolding step
  step-Stepped old me none entering d t k = idle old me opening d t tt
  step-Stepped old me (some e) entering d t k = idle old me (ended (raised e)) d t tt
  step-Stepped old me none opening d t k = touching old me dumping (some partial) d t tt
  step-Stepped old me none dumping d t k = idle old me flushing d t tt
  step-Stepped old me none flushing d t k =
      touching old me syncing (some (whole (payload me))) d t (rw (self me) refl)
  step-Stepped old me none syncing d t k = idle old me replacing d t k
  step-Stepped old me none replacing d t k = replaced old me d k
  step-Stepped old me none (cleaning r) d t k = unlink-Stepped old me none r (d.temps me) d t k
  step-Stepped old me (some e) (cleaning r) d t k =
      unlink-Stepped old me (some e) r (d.temps me) d t k
  step-Stepped old me none (ended r) d t k = idle old me (ended r) d t k
  step-Stepped old me (some e) (ended r) d t k = idle old me (ended r) d t k
  step-Stepped old me (some e) opening d t k = idle old me (cleaning (raised e)) d t tt
  step-Stepped old me (some e) dumping d t k = idle old me (cleaning (raised e)) d t tt
  step-Stepped old me (some e) flushing d t k = idle old me (cleaning (raised e)) d t tt
  step-Stepped old me (some e) syncing d t k = idle old me (cleaning (raised e)) d t tt
  step-Stepped old me (some e) replacing d t k = idle old me (cleaning (raised e)) d t tt

  -- what a thread knows survives the step of another
  survives :
      (who : ℕ) (p : Phase) (d d' : Disk C)
      → d'.temps who ≡ d.temps who
      → (New d.target → New d'.target)
      → Placed who p d
      → Placed who p d'
  survives who entering d d' e n k = tt
  survives who opening d d' e n k = tt
  survives who dumping d d' e n k = tt
  survives who flushing d d' e n k = tt
  survives who syncing d d' e n k = e ∙ k
  survives who replacing d d' e n k = e ∙ k
  survives who (cleaning (ok u)) d d' e n k = n k
  survives who (cleaning (raised x)) d d' e n k = tt
  survives who (ended (ok u)) d d' e n k = n k
  survives who (ended (raised x)) d d' e n k = tt

  advance-Sound :
      (old : Option (File C)) (me : ℕ) (fault : Option Exn) (s : System C)
      → Sound old s
      → Sound old (advance payload me fault s)
  unfolding advance
  advance-Sound old me fault s i =
      let k = step-Stepped old me fault (s.phase me) s.disk i.target (i.placed me) in
      record { target = k.target; placed = at k }
    where
      at :
          Stepped me old s.disk (step (payload me) me fault (s.phase me) s.disk)
          → (who : ℕ)
          → Placed who ((advance payload me fault s).phase who) (advance payload me fault s).disk
      at k who = elim (Bool-cases (who == me)) [
        | inl same ↦ let equal : who ≡ me = ground arith in rw (equal, self me) k.placed
        | inr differ ↦
            let ne : who ≢ me = λ e. ground arith in
            rw differ (
              survives who (s.phase who) s.disk (advance payload me fault s).disk (k.others who ne)
                k.new_stays (i.placed who))
      ]

  schedule-Sound :
      (old : Option (File C)) (order : List (ℕ × Option Exn)) (s : System C)
      → Sound old s
      → Sound old (schedule payload order s)
  unfolding schedule
  schedule-Sound old [] s i = i
  schedule-Sound old ((me, fault) ∷ order) s i =
      schedule-Sound old order (advance payload me fault s) (advance-Sound old me fault s i)

  abbrev pub begun : Option (File C) → (ℕ → Option (File C)) → System C
  begun old temps = record {
    disk = record { target = old; temps = temps };
    phase = λ who. entering;
  }

  load_whole :
      (parse : File C → Result C) (c : C) (now : Option (File C))
      → parse (whole c) ≡ ok c
      → now ≡ some (whole c)
      → load parse now ≡ ok (some c)
  unfolding load
  load_whole parse c now law e = rw (e, load, law) refl

  loaded :
      (parse : File C → Result C) (old now : Option (File C))
      → ((c : C) → parse (whole c) ≡ ok c)
      → OldOrNew old now
      → (load parse now ≡ load parse old) ⊎ (who : ℕ) × (load parse now ≡ ok (some (payload who)))
  loaded parse old now law (inl same) = inl (ap (load parse) same)
  loaded parse old now law (inr (who, e)) =
      inr (who, load_whole parse (payload who) now (law (payload who)) e)

  begun-Sound :
      (old : Option (File C)) (temps : ℕ → Option (File C)) (order : List (ℕ × Option Exn))
      → Sound old (schedule payload order (begun old temps))
  begun-Sound old temps order =
      schedule-Sound old order (begun old temps) (record { target = inl refl; placed = λ who. tt })

  -- Where `json.load` reads back what `json.dump` wrote: after any calls of any threads that save, raised
  -- exceptions and leftover temporary files included, and wherever the list of calls is cut off, `load`
  -- gives what it gave before, or the whole value of one of the threads.
  pub load_after_crash :
      (parse : File C → Result C) (old : Option (File C)) (temps : ℕ → Option (File C))
      (order : List (ℕ × Option Exn))
      → ((c : C) → parse (whole c) ≡ ok c)
      → let now = ((schedule payload order (begun old temps)).disk).target in
        (load parse now ≡ load parse old) ⊎ (who : ℕ) × (load parse now ≡ ok (some (payload who)))
  load_after_crash parse old temps order law =
      loaded parse old ((schedule payload order (begun old temps)).disk).target law
        (begun-Sound old temps order).target

  -- Once the `save` of a thread has returned, `load` gives the value of a thread.
  pub load_after_save :
      (parse : File C → Result C) (old : Option (File C)) (temps : ℕ → Option (File C))
      (order : List (ℕ × Option Exn)) (me : ℕ)
      → ((c : C) → parse (whole c) ≡ ok c)
      → (schedule payload order (begun old temps)).phase me ≡ ended (ok tt)
      → (who : ℕ) × (load parse ((schedule payload order (begun old temps)).disk).target
          ≡ ok (some (payload who)))
  load_after_save parse old temps order me law done =
      let final = schedule payload order (begun old temps) in
      let (who, e) : New (final.disk).target =
        rw done at ((begun-Sound old temps order).placed me) in
      (who, load_whole parse (payload who) (final.disk).target (law (payload who)) e)
