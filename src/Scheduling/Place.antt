-- ===== src/Scheduling/Place.antt =====
-- Where the main thread is, what is known of the threads and of the temporary files.
use networks_dartsync.Base.{
  ℕ, zero, suc, ◌+◌, ◌≤◌, ◌<◌, ◌≡◌, ◌≢◌, refl, sym, List, [], ◌∷◌, Bool, true, false, none, some,
  arith, ltb, ◌==◌, if◌then◌else◌, length, get_or, set, Bool-cases, Option-cases, inl, inr,
  ℕ_discrete,
}
use networks_dartsync.Assembly.{Temps, get_file_size, get_available_peer_idx, is_all_zero}
use networks_dartsync.Scheduling.{
  Job, Worker, absent, started, working, over, Main, starting, waiting, passing, finding, left,
  piece_at, update,
}
use networks_dartsync.Scheduling.Table.{get_or-set}
use networks_dartsync.Scheduling.Invariant.{peer_of, slot_of, Table, is_quiet, checked, Fits, Place}

pub all_zero-not_one :
    (n : ℕ) (flags : List ℕ) → is_all_zero n flags ≡ true → (i : ℕ) → i < n → get_or flags i 0 ≢ 1
unfolding is_all_zero
all_zero-not_one zero flags z i h = absurd (omega arith)
all_zero-not_one (suc n) [] z i h = ground arith
all_zero-not_one (suc n) (f ∷ flags) z zero h = ground arith
all_zero-not_one (suc n) (f ∷ flags) z (suc i) h = elim (Bool-cases (f == 1)) [
  | inl one ↦ absurd (ground arith)
  | inr other ↦
      let rest : is_all_zero n flags ≡ true = rw (sym z, other) refl in
      all_zero-not_one n flags rest i (omega arith)
]

pub available-free :
    (n : ℕ) (flags : List ℕ) (i : ℕ)
    → get_available_peer_idx n flags ≡ some i
    → (i < n) × (get_or flags i 0 ≡ 0)
unfolding get_available_peer_idx
available-free zero flags i h = absurd (cc)
available-free (suc n) [] i h = absurd (cc)
available-free (suc n) (f ∷ flags) i h = elim (Bool-cases (f == 0)) [
  | inl free ↦ let e : i ≡ 0 = ground arith in rw e (omega arith, ground arith)
  | inr busy ↦ elim (Option-cases (get_available_peer_idx n flags)) [
    | inl nobody ↦ absurd (ground arith)
    | inr (j, found) ↦
        let (l, z) = available-free n flags j found in
        let e : i ≡ suc j = ground arith in rw e (omega (arith, l), z)
  ]
]

idle_slot : (w : Worker) → peer_of w ≡ none → slot_of w ≡ none
idle_slot absent e = refl
idle_slot (started peer slot) e = absurd (ground arith)
idle_slot (working peer slot todo v) e = absurd (ground arith)
idle_slot over e = refl

-- Where threads may run, the pass has found nothing that is to last.
busy-checked : (job : Job) (m : Main) → is_quiet m ≡ false → checked job m ≡ 0
busy-checked job (starting i) e = refl
busy-checked job waiting e = refl
busy-checked job (passing i true) e = refl
busy-checked job (passing i false) e = absurd (ground arith)
busy-checked job (finding i) e = refl
busy-checked job left e = absurd (ground arith)

-- A thread that runs does its step: the place of the main thread stays true.
pub Place-busy :
    (job : Job) (m : Main) (flags flags' : List ℕ) (temps temps' : Temps)
    (workers workers' : ℕ → Worker) (k i : ℕ)
    → peer_of (workers k) ≡ some i
    → Fits job m flags'
    → ((j l : ℕ) → slot_of (workers' j) ≡ some l → slot_of (workers j) ≡ some l)
    → Place job m flags temps workers
    → Place job m flags' temps' workers'
Place-busy job m flags flags' temps temps' workers workers' k i runs fits slots h = record {
  fits = fits;
  below = λ j l e. h.below j l (slots j l e);
  quiet = λ q. absurd (ground (arith, h.quiet q k));
  long = λ j l. elim (Bool-cases (is_quiet m)) [
    | inl q ↦ absurd (ground (arith, h.quiet q k))
    | inr loud ↦ absurd (ground (arith, busy-checked job m loud))
  ];
}

-- The flag of a thread that ends was 1, so its peer is behind the loop over the peers.
pub Fits-end :
    (job : Job) (m : Main) (flags : List ℕ) (peer flag : ℕ)
    → peer < length flags
    → get_or flags peer 0 ≡ 1
    → Fits job m flags
    → Fits job m (set flags peer flag)
Fits-end job (starting i) flags peer flag l one (e, h, free) =
    (e, h, λ j le. ground (arith, get_or-set flags peer j flag, free j))
Fits-end job waiting flags peer flag l one h = tt
Fits-end job (passing i mark) flags peer flag l one h = h
Fits-end job (finding i) flags peer flag l one h = h
Fits-end job left flags peer flag l one h = tt

module _ (job : Job) (flags : List ℕ) (temps : Temps) (workers : ℕ → Worker) where
  abbrev At : Main → Type 0
  At m = Place job m flags temps workers

  pub Place-all_started : (i : ℕ) → ltb i job.num_peers ≡ false → At (starting i) → At waiting
  Place-all_started i past h =
      let (e, l, free) = h.fits in
      record {
        fits = tt;
        below = λ k j r. omega (arith, h.below k j r, e, l);
        quiet = λ q. absurd (ground arith);
        long = λ j l. absurd (omega arith);
      }

  pub Place-all_zero :
      {created : ℕ}
      → Table job.num_peers flags created workers
      → is_all_zero job.num_peers flags ≡ true
      → At (passing 0 false)
  Place-all_zero t z = record {
    fits = omega arith;
    below = λ k j r. absurd (ground (arith, idle_slot (workers k) (nobody k)));
    quiet = λ q. nobody;
    long = λ j l. absurd (omega arith);
  }
    where
      nobody : (k : ℕ) → peer_of (workers k) ≡ none
      nobody k = elim (Option-cases (peer_of (workers k))) [
        | inl idle ↦ idle
        | inr (i, runs) ↦
            let (l, one) = t.busy k i runs in
            absurd (all_zero-not_one job.num_peers flags z i l one)
      ]

  pub Place-short :
      (i : ℕ) (mark : Bool) → i < job.num_tmpt_file → At (passing i mark) → At (finding i)
  Place-short i mark l h = record {
    fits = l;
    below = h.below;
    quiet = λ q. absurd (ground arith);
    long = λ j l. absurd (omega arith);
  }

  pub Place-long :
      (i : ℕ) (mark : Bool)
      → i < job.num_tmpt_file
      → ltb (get_file_size (temps (piece_at job i))) (piece_at job i).len ≡ false
      → At (passing i mark)
      → At (passing (i + 1) mark)
  Place-long i true l enough h = record {
    fits = omega arith;
    below = λ k j r. omega (arith, h.below k j r);
    quiet = λ q. absurd (ground arith);
    long = λ j l. absurd (omega arith);
  }
  Place-long i false l enough h = record {
    fits = omega arith;
    below = λ k j r. omega (arith, h.below k j r);
    quiet = h.quiet;
    long = λ j less. elim (ℕ_discrete j i) [
      | yes last ↦ rw last enough
      | no before ↦ h.long j (omega arith)
    ];
  }

  pub Place-over :
      (i : ℕ) (mark : Bool)
      → ltb i job.num_tmpt_file ≡ false
      → At (passing i mark)
      → At (if mark then waiting else left)
  Place-over i true past h =
      let l = h.fits in
      record {
        fits = tt;
        below = λ k j r. omega (arith, h.below k j r, l);
        quiet = λ q. absurd (ground arith);
        long = λ j l. absurd (omega arith);
      }
  Place-over i false past h =
      let l = h.fits in
      let e : job.num_tmpt_file ≤ i = ground arith in
      record {
        fits = tt;
        below = λ k j r. omega (arith, h.below k j r, l);
        quiet = h.quiet;
        long = λ j less. h.long j (omega arith);
      }

  created-below :
      (created peer slot bound bound' : ℕ)
      → ((k i : ℕ) → slot_of (workers k) ≡ some i → i < bound)
      → slot < bound'
      → bound ≤ bound'
      → (k i : ℕ) → slot_of (update workers created (started peer slot) k) ≡ some i
      → i < bound'
  created-below created peer slot bound bound' below l le k i e = ground (arith, below k i)

  pub Place-started :
      (created i : ℕ)
      → i < job.num_peers
      → i < length flags
      → At (starting i)
      → Place job (starting (i + 1)) (set flags i 1) temps (update workers created (started i i))
  Place-started created i l enough h =
      let (e, le, free) = h.fits in
      record {
        fits = (e, omega arith, λ j after. ground (arith, get_or-set flags i j 1, free j));
        below = created-below created i i i (i + 1) h.below (omega arith) (omega arith);
        quiet = λ q. absurd (ground arith);
        long = λ j l. absurd (omega arith);
      }

  pub Place-found :
      (created peer i : ℕ)
      → At (finding i)
      → Place job
          (passing (i + 1) true)
          (set flags peer 1)
          temps
          (update workers created (started peer i))
  Place-found created peer i h =
      let l = h.fits in
      record {
        fits = omega arith;
        below = created-below created peer i i (i + 1) h.below (omega arith) (omega arith);
        quiet = λ q. absurd (ground arith);
        long = λ j l. absurd (omega arith);
      }
