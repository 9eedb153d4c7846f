-- ===== src/Rl/Tasklet/Rounds.antt =====
-- A round of the tasklet keeps the invariant of the waiting queues: the head leaves the list, and
-- is served.
use eyeq.Common.{
  ℕ, ◌≡◌, refl, sym, ap, ◌∙◌, ◌⊎◌, Bool, true, false, Option, none, some, List, [], ◌∷◌, ◌++◌,
  arith, ◌==◌, Bool-cases, ==_iff, inl, inr, ok,
}
use mathlib.Core.List.{append-nil, append_assoc}
use eyeq.Common.Store.{Store, write}
use eyeq.Kernel.{Kernel}
use eyeq.Params.{Params}
use eyeq.Rl.{Rl, clock}
use eyeq.Rl.Dequeue.{dequeue_root}
use eyeq.Rl.Relay.{dequeue_child}
use eyeq.Rl.Tasklet.{Limiters, Round, unlisted, serve_root, serve_child, serve_any, serve_queue}
use eyeq.Rl.Tasklet.Armed.{Listing, IsArmed, dequeue_root-IsArmed, SameListing, clock-SameListing}
use eyeq.Rl.Tasklet.Relisted.{dequeue_child-IsRelisted}
use eyeq.Rl.Tasklet.Timed.{dequeue_root-Timed, dequeue_child-Timed}
use eyeq.Rl.Tasklet.Waiting.{
  active_in, Waits, HasParent, IsListed, IsWaiting, write_here, write_other, write_twice,
  write_under, put-HasParent, put-IsListed, pop-IsListed, write-keeps,
}

-- The limiters in the middle of a round: the queue at `i` has left the list, and need not wait.
pub record IsPopped (cpu i : ℕ) (rls : Store Rl) (parent : ℕ → ℕ) (ids : List ℕ) : Type 0 where
  pub listed : IsListed cpu rls ids
  pub others : (j : ℕ) → (j == i) ≡ false → Waits cpu (rls j)
  pub parents : (j : ℕ) → HasParent rls (parent j) (rls j)

pop-IsPopped :
    (cpu i : ℕ) (rest : List ℕ) (rl rl' : Rl) (t : Limiters)
    → IsWaiting cpu t
    → t.cb.active_list ≡ i ∷ rest
    → t.rls i ≡ some rl
    → SameListing cpu (unlisted cpu rl) rl'
    → IsPopped cpu i (write t.rls i rl') t.parent rest
unfolding unlisted
pop-IsPopped cpu i rest rl rl' t v e here s =
    let name : rl.id ≡ i = rw here at (v.listed.named i) in
    record {
      listed =
          pop-IsListed cpu t.rls rest i rl' (s.same_id ∙ name)
            (rw ((==_iff cpu cpu).1 refl) at s.active) (rw e at v.listed);
      others = λ j apart. rw apart (v.held j);
      parents = put-HasParent t.parent t.rls i rl rl' here s.same_txc v.parents;
    }

-- A packet is queued: the list is as before.
pub queued-IsPopped :
    (cpu i : ℕ) (rl rl' : Rl) (t : Limiters)
    → IsWaiting cpu t
    → t.rls i ≡ some rl
    → SameListing cpu rl rl'
    → IsPopped cpu i (write t.rls i rl') t.parent t.cb.active_list
queued-IsPopped cpu i rl rl' t v here s =
    let name : rl.id ≡ i = rw here at (v.listed.named i) in
    record {
      listed =
          put-IsListed cpu t.rls _ _ i rl rl' here (s.same_id ∙ name) (inl (s.active, refl))
            v.listed;
      others = λ j apart. rw apart (v.held j);
      parents = put-HasParent t.parent t.rls i rl rl' here s.same_txc v.parents;
    }

-- The served limiter is written.
close-IsWaiting :
    (cpu i : ℕ) (rl rl' : Rl) (rls : Store Rl) (ids : List ℕ) (t : Limiters)
    → IsPopped cpu i rls t.parent ids
    → rls i ≡ some rl
    → rl.id ≡ i
    → IsArmed rl rl' cpu ids t.cb.active_list
    → t.rls ≡ write rls i rl'
    → IsWaiting cpu t
close-IsWaiting cpu i rl rl' rls ids t v e name a same = record {
  listed = rw same (
      put-IsListed cpu rls ids t.cb.active_list i rl rl' e (a.same_id ∙ name) (rw name at a.listing)
        v.listed);
  held = rw same (write-keeps (λ j o. Waits cpu o) rls i rl' a.held v.others);
  parents = rw same (put-HasParent t.parent rls i rl rl' e a.same_txc v.parents);
}

-- The parent is written.
parent-IsPopped :
    (cpu i p : ℕ) (up up' : Rl) (rls : Store Rl) (parent : ℕ → ℕ) (ids ids' : List ℕ)
    → IsPopped cpu i rls parent ids
    → (p == i) ≡ false
    → rls p ≡ some up
    → up'.id ≡ up.id
    → up'.txc ≡ up.txc
    → Listing up.id (up.queue cpu).active (up'.queue cpu).active ids ids'
    → ((up'.queue cpu).list ≡ []) ⊎ ((up'.queue cpu).active ≡ true) ⊎ (up' ≡ up)
    → IsPopped cpu i (write rls p up') parent ids'
parent-IsPopped cpu i p up up' rls parent ids ids' v apart e same_id same_txc listing held =
    let name : up.id ≡ p = rw e at (v.listed.named p) in
    let waits : Waits cpu (some up) = rw e at (v.others p apart) in
    record {
      listed =
          put-IsListed cpu rls ids ids' p up up' e (same_id ∙ name) (rw name at listing) v.listed;
      others =
          write-keeps (λ j o. (j == i) ≡ false → Waits cpu o) rls p up' (λ h. kept waits held)
            (λ j other. v.others j);
      parents = put-HasParent parent rls p up up' e same_txc v.parents;
    }
  where
    kept :
        Waits cpu (some up)
        → ((up'.queue cpu).list ≡ []) ⊎ ((up'.queue cpu).active ≡ true) ⊎ (up' ≡ up)
        → Waits cpu (some up')
    kept w (inl none_left) = inl none_left
    kept w (inr (inl on)) = inr on
    kept w (inr (inr same)) = rw same w

-- What a round leaves: the invariant, with the queue served and the list gone on.
pub record IsRound (cpu i : ℕ) (rest : List ℕ) (t t' : Limiters) : Type 0 where
  pub waiting : IsWaiting cpu t'
  pub served : t'.served ≡ t.served ++ (i ∷ [])
  pub added : List ℕ
  pub queue : t'.cb.active_list ≡ rest ++ added
  pub timed : (t'.cb.timer ≡ true) ⊎ ((t'.cb.active_list ≡ rest) × (t'.cb.timer ≡ t.cb.timer))

Listing-added :
    (i : ℕ) (a b : Bool) (ids ids' : List ℕ)
    → Listing i a b ids ids'
    → (added : List ℕ) × (ids' ≡ ids ++ added)
Listing-added i a b ids ids' (inl (same, kept)) = ([], kept ∙ sym (append-nil ids))
Listing-added i a b ids ids' (inr (off, on, last)) = (i ∷ [], last)

-- The root limiter of a class is served.
serve_root-IsRound :
    (P : Params) (round : Round) (cpu i : ℕ) (rl : Rl) (t : Limiters)
    → rl.id ≡ i
    → IsPopped cpu i (write t.rls i rl) t.parent t.cb.active_list
    → IsRound cpu i t.cb.active_list t (serve_root P round false cpu i rl t).0
unfolding serve_root
serve_root-IsRound P round cpu i rl t name v =
    let r = dequeue_root P round.root false rl cpu t.cb in
    let a = dequeue_root-IsArmed P round.root rl cpu t.cb in
    let (added, queue) = Listing-added rl.id _ _ t.cb.active_list r.cb.active_list a.listing in
    record {
      waiting =
          close-IsWaiting cpu i rl r.rl (write t.rls i rl) t.cb.active_list _ v
            (write_here t.rls i rl) name a (sym (write_twice t.rls i rl r.rl));
      served = refl;
      added = added;
      queue = queue;
      timed = dequeue_root-Timed P round.root rl cpu t.cb;
    }

-- A child is served, and its parent with it.
serve_child-IsRound :
    (K : Kernel) (P : Params) (round : Round) (cpu i p : ℕ) (rl up : Rl) (t : Limiters)
    → rl.id ≡ i
    → IsPopped cpu i (write t.rls i rl) t.parent t.cb.active_list
    → (p == i) ≡ false
    → t.rls p ≡ some up
    → IsRound cpu i t.cb.active_list t (serve_child K P round false cpu i rl p up t).0
unfolding serve_child
serve_child-IsRound K P round cpu i p rl up t name v apart here =
    let r = dequeue_child K P round.reading round.child round.root false rl up cpu t.cb in
    let a = dequeue_child-IsRelisted K P round.reading round.child round.root rl up cpu t.cb in
    let (added, queue) = Listing-added up.id _ _ t.cb.active_list a.between a.root in
    let (added', queue') = Listing-added rl.id _ _ a.between r.cb.active_list a.child.listing in
    let rls = write t.rls i rl in
    let w =
      parent-IsPopped cpu i p up r.parent.rl rls t.parent t.cb.active_list a.between v apart
        (write_other t.rls i p rl apart ∙ here) a.root_id a.root_txc a.root a.root_held in
    record {
      waiting =
          close-IsWaiting cpu i rl r.rl (write rls p r.parent.rl) a.between _ w
            (write_other rls p i r.parent.rl (apart_sym apart) ∙ write_here t.rls i rl) name a.child
            (sym (write_under t.rls i p rl r.parent.rl r.rl));
      served = refl;
      added = added ++ added';
      queue =
          queue'
          ∙ ap (λ (xs : List ℕ). xs ++ added') queue
          ∙ append_assoc t.cb.active_list added added';
      timed = dequeue_child-Timed K P round.reading round.child round.root rl up cpu t.cb;
    }
  where
    apart_sym : (p == i) ≡ false → (i == p) ≡ false
    apart_sym h = ground (arith, h)

-- A limiter that is not its class's finds its parent, which is another.
parent_of :
    (cpu i : ℕ) (rl : Rl) (t : Limiters)
    → IsPopped cpu i (write t.rls i rl) t.parent t.cb.active_list
    → rl.txc ≡ true
    → (up : Rl) × (t.rls (t.parent i) ≡ some up) × ((t.parent i == i) ≡ false)
parent_of cpu i rl t v child = found (rw (write_here t.rls i rl) at (v.parents i))
  where
    found :
        HasParent (write t.rls i rl) (t.parent i) (some rl)
        → (up : Rl) × (t.rls (t.parent i) ≡ some up) × ((t.parent i == i) ≡ false)
    found (inl root) = absurd (cc)
    found (inr (up, here, root)) = elim (Bool-cases (t.parent i == i)) [
      | inl same ↦ absurd (ground (arith, rw same at here, child, root))
      | inr apart ↦ (up, rw apart at here, apart)
    ]

pub serve_any-IsRound :
    (K : Kernel) (P : Params) (round : Round) (cpu i : ℕ) (rl : Rl) (t : Limiters)
    → rl.id ≡ i
    → IsPopped cpu i (write t.rls i rl) t.parent t.cb.active_list
    → (t' : Limiters) × (bytes : ℕ) × (serve_any K P round false cpu i rl t ≡ ok (t', bytes))
      × IsRound cpu i t.cb.active_list t t'
unfolding serve_any
serve_any-IsRound K P round cpu i rl t name v = elim (Bool-cases rl.txc) [
  | inl child ↦
      let (up, here, apart) = parent_of cpu i rl t v child in
      let r = serve_child K P round false cpu i rl (t.parent i) up t in
      (
        r.0,
        r.1,
        rw (serve_any, child, here) refl,
        serve_child-IsRound K P round cpu i (t.parent i) rl up t name v apart here,
      )
  | inr root ↦
      let r = serve_root P round false cpu i rl t in
      (r.0, r.1, rw (serve_any, root) refl, serve_root-IsRound P round cpu i rl t name v)
]

-- The head of the list is a limiter.
head_allocated :
    (cpu i : ℕ) (rest : List ℕ) (t : Limiters)
    → IsWaiting cpu t
    → t.cb.active_list ≡ i ∷ rest
    → (rl : Rl) × (t.rls i ≡ some rl)
head_allocated cpu i rest t v e =
    found (t.rls i) refl (rw (e, (==_iff i i).1 refl) at (v.listed.listed i))
  where
    found :
        (o : Option Rl)
        → t.rls i ≡ o
        → true ≡ active_in cpu (t.rls i)
        → (rl : Rl) × (t.rls i ≡ some rl)
    found none e on = absurd (ground (arith, e, on))
    found (some rl) e on = (rl, e)

-- Every round that the tasklet begins with a list in order ends well.
pub serve_queue-IsRound :
    (K : Kernel) (P : Params) (round : Round) (cpu i : ℕ) (rest : List ℕ) (t : Limiters)
    → IsWaiting cpu t
    → t.cb.active_list ≡ i ∷ rest
    → (t' : Limiters) × (bytes : ℕ) × (serve_queue K P round false cpu i rest t ≡ ok (t', bytes))
      × IsRound cpu i rest t t'
unfolding serve_queue
serve_queue-IsRound K P round cpu i rest t v e =
    let (rl, here) = head_allocated cpu i rest t v e in
    let up = unlisted cpu rl in
    let (now, n) = clock K P round.reading up in
    let s = clock-SameListing K P round.reading cpu up in
    let popped = pop-IsPopped cpu i rest rl now t v e here s in
    let cb = t.cb in
    let t1 : Limiters = record t { cb = record cb { active_list = rest } } in
    let name : now.id ≡ i = unfold unlisted in (s.same_id ∙ (rw here at (v.listed.named i))) in
    let (t', bytes, run, r) =
      serve_any-IsRound K P (record round { reading = n }) cpu i now t1 name popped in
    (
      t',
      bytes,
      rw here run,
      record {
        waiting = r.waiting;
        served = r.served;
        added = r.added;
        queue = r.queue;
        timed = r.timed;
      },
    )
