-- ===== src/Config/References.antt =====
-- The calls that create, associate and delete classes keep the counts of the queues right.
use mathlib.Core.Path.{subst}
use eyeq.Common.{
  ℕ, ◌+◌, ◌-◌, ◌≡◌, refl, sym, ap, false, List, [], ◌∷◌, ◌++◌, Option, none, some, arith, ◌==◌,
  Bool-cases, Option-cases, ==_iff, inl, inr, Result, ok, >>=-eq-ok, ok-inj,
}
use eyeq.Common.Store.{Store, at, read, write, free, update_at}
use eyeq.Kernel.{Kernel}
use eyeq.Params.{Params}
use eyeq.Tx.{TxClass, TxContext, recompute_rates}
use eyeq.Tx.Classes.{
  Status, invalid, txc_find, txc_init, link, txc_alloc, install_found, install, unlink, remove,
}
use eyeq.Vq.{Vq}
use eyeq.Vq.Table.{vq_find}
use eyeq.Config.{NetDevice, release, associate, associate_found, associate_class, assoc, drop_class}
use eyeq.Config.Frames.{
  refers, points_to, one, refcnt_of, SamePointers, recompute_rates-SamePointers,
}
use eyeq.Config.Counts.{
  IsCounted, frame-IsCounted, new-IsCounted, move-IsCounted, drop-IsCounted, refers-le,
}

-- A device's counts are right.
abbrev pub Counted : NetDevice → Type 0
Counted dev = (live : List ℕ) × IsCounted live dev.context.txcs dev.table.vqs

changed-counts :
    (f : Vq → Vq) (v : ℕ) (vqs vqs' : Store Vq)
    → update_at f v vqs ≡ ok vqs'
    → (vq : Vq) × (vqs v ≡ some vq) × (vqs' ≡ write vqs v (f vq))
unfolding update_at
changed-counts f v vqs vqs' run = elim (Option-cases (vqs v)) [
  | inl gone ↦ absurd (cc (rw gone at run))
  | inr (vq, held) ↦ (vq, held, sym (ok-inj (rw held at run)))
]

release-counts :
    (o : Option ℕ) (vqs vqs' : Store Vq)
    → release o vqs ≡ ok vqs'
    → (u : ℕ) → at refcnt_of vqs' u ≡ at refcnt_of vqs u - refers u o
unfolding release
release-counts none vqs vqs' run u =
    let same : at refcnt_of vqs' u ≡ at refcnt_of vqs u =
      ap (λ (s : Store Vq). at refcnt_of s u) (sym (ok-inj run)) in
    omega (arith, same)
release-counts (some v) vqs vqs' run u =
    let (vq, held, written) = changed-counts _ v vqs vqs' run in
    rw written (elim (Bool-cases (u == v)) [
      | inl same ↦ rw (same, (==_iff u v).0 same, held, (==_iff v v).1 refl) refl
      | inr apart ↦ rw (apart, other u v apart) (omega arith)
    ])
  where
    other : (u v : ℕ) → (u == v) ≡ false → (v == u) ≡ false
    other u v h = ground (arith, h)

taken-counts :
    (v : ℕ) (vqs vqs' : Store Vq)
    → update_at (λ vq. record vq { refcnt = vq.refcnt + 1 }) v vqs ≡ ok vqs'
    → (u : ℕ) → at refcnt_of vqs' u ≡ at refcnt_of vqs u + refers u (some v)
taken-counts v vqs vqs' run u =
    let (vq, held, written) = changed-counts _ v vqs vqs' run in
    rw written (elim (Bool-cases (u == v)) [
      | inl same ↦ rw (same, (==_iff u v).0 same, held, (==_iff v v).1 refl) refl
      | inr apart ↦ rw (apart, other u v apart) (omega arith)
    ])
  where
    other : (u v : ℕ) → (u == v) ≡ false → (v == u) ≡ false
    other u v h = ground (arith, h)

-- The device of an answer.
abbrev pub Keeps : NetDevice → Result (Status × NetDevice) → Type 0
Keeps dev result =
    (status : Status) (dev' : NetDevice) → result ≡ ok (status, dev') → Counted dev → Counted dev'

pub same-Keeps : (status : Status) (dev : NetDevice) → Keeps dev (ok (status, dev))
same-Keeps status dev status' dev' run v =
    subst Counted (ap (λ (r : Status × NetDevice). r.1) (ok-inj run)) v

associate-Keeps : (i v : ℕ) (dev : NetDevice) → Keeps dev (associate i v dev)
unfolding associate
associate-Keeps i v dev status dev' run (live, c) = elim (Option-cases (dev.context.txcs i)) [
  | inl gone ↦ absurd (cc (rw gone at run))
  | inr (txc, held) ↦
      let (released, first, rest) = >>=-eq-ok (release txc.vq dev.table.vqs) _ (rw held at run) in
      let (vqs, second, last) = >>=-eq-ok (update_at _ v released) _ rest in
      let moved : (u : ℕ)
          → at refcnt_of vqs u + refers u txc.vq
            ≡ at refcnt_of dev.table.vqs u + refers u (some v) =
        λ u. omega (
          arith,
          refers-le live dev.context.txcs dev.table.vqs i txc c held u,
          release-counts txc.vq dev.table.vqs released first u,
          taken-counts v released vqs second u,
        ) in
      subst Counted (ap (λ (r : Status × NetDevice). r.1) (ok-inj last))
        (live, move-IsCounted live dev.context.txcs dev.table.vqs vqs i txc _ c held moved)
]

associate_found-Keeps :
    (i : ℕ) (dev : NetDevice) (found : Option ℕ) → Keeps dev (associate_found i dev found)
unfolding associate_found
associate_found-Keeps i dev none = same-Keeps invalid dev
associate_found-Keeps i dev (some v) = associate-Keeps i v dev

associate_class-Keeps :
    (K : Kernel) (vqclass : ℕ) (dev : NetDevice) (found : Option ℕ)
    → Keeps dev (associate_class K vqclass dev found)
unfolding associate_class
associate_class-Keeps K vqclass dev none status dev' run = same-Keeps invalid dev status dev' run
associate_class-Keeps K vqclass dev (some i) status dev' run =
    let (found, searched, rest) = >>=-eq-ok (vq_find K vqclass dev.table) _ run in
    associate_found-Keeps i dev found status dev' rest

pub assoc-Keeps :
    (K : Kernel) (txclass vqclass : ℕ) (dev : NetDevice) → Keeps dev (assoc K txclass vqclass dev)
unfolding assoc
assoc-Keeps K txclass vqclass dev status dev' run =
    let (found, searched, rest) = >>=-eq-ok (txc_find K txclass dev.context) _ run in
    associate_class-Keeps K vqclass dev found status dev' rest

-- What the removal of a class leaves: its store, without the class.
unlink-pointers :
    (K : Kernel) (P : Params) (i : ℕ) (context context' : TxContext)
    → unlink K P i context ≡ ok context'
    → SamePointers (free context.txcs i) context'.txcs
unfolding unlink
unlink-pointers K P i context context' run =
    let (txc, held, rest) = >>=-eq-ok (read context.txcs i) _ run in
    let (c, computed, last) = >>=-eq-ok (recompute_rates P _) _ rest in
    let p = recompute_rates-SamePointers P _ c computed in
    subst (λ (x : TxContext). SamePointers (free context.txcs i) x.txcs) (ok-inj last)
      (record {
        pointers = λ v. freed (points_to v) context.txcs c.txcs (p.pointers v);
        alive = freed one context.txcs c.txcs p.alive;
      })
  where
    freed :
        (w : TxClass → ℕ) (s s' : Store TxClass)
        → ((j : ℕ) → at w s' j ≡ at w s j)
        → (j : ℕ) → at w (free s' i) j ≡ at w (free s i) j
    freed w s s' same j = elim (Bool-cases (j == i)) [
      | inl here ↦ rw here refl
      | inr there ↦ rw there (same j)
    ]

pub drop_class-Keeps :
    (K : Kernel) (P : Params) (dev : NetDevice) (found : Option ℕ)
    → Keeps dev (drop_class K P dev found)
unfolding drop_class
drop_class-Keeps K P dev none status dev' run v = same-Keeps invalid dev status dev' run v
drop_class-Keeps K P dev (some i) status dev' run (live, c) =
    elim (Option-cases (dev.context.txcs i)) [
      | inl gone ↦ absurd (cc (rw gone at run))
      | inr (txc, held) ↦
          let (context, unlinked, rest) = >>=-eq-ok (unlink K P i dev.context) _ (rw held at run) in
          let (vqs, released, last) = >>=-eq-ok (release txc.vq dev.table.vqs) _ rest in
          let gone : (u : ℕ) → at refcnt_of vqs u + points_to u txc ≡ at refcnt_of dev.table.vqs u =
            λ u. omega (
              arith,
              refers-le live dev.context.txcs dev.table.vqs i txc c held u,
              release-counts txc.vq dev.table.vqs vqs released u,
            ) in
          let dropped = drop-IsCounted live dev.context.txcs dev.table.vqs vqs i txc c held gone in
          subst Counted (ap (λ (r : Status × NetDevice). r.1) (ok-inj last)) (
            remove i live,
            frame-IsCounted (remove i live) (free dev.context.txcs i) context.txcs vqs vqs
                (unlink-pointers K P i dev.context context unlinked) (λ u. refl) dropped,
          )
    ]

stays :
    (context context' : TxContext) (vqs : Store Vq)
    → context ≡ context'
    → (live : List ℕ) × IsCounted live context.txcs vqs
    → (live : List ℕ) × IsCounted live context'.txcs vqs
stays context context' vqs same v =
    subst (λ (x : TxContext). (live : List ℕ) × IsCounted live x.txcs vqs) same v

-- A new class is put where there was none.
install_found-Counted :
    (K : Kernel) (P : Params) (n klass : ℕ) (memory : Option ℕ) (context context' : TxContext)
    (vqs : Store Vq) (found : Option ℕ) (status : Status)
    → ((i : ℕ) → memory ≡ some i → context.txcs i ≡ none)
    → install_found K P n memory klass context found ≡ ok (status, context')
    → (live : List ℕ) × IsCounted live context.txcs vqs
    → (live : List ℕ) × IsCounted live context'.txcs vqs
unfolding install_found txc_alloc link txc_init
install_found-Counted K P n klass memory context context' vqs (some i) status fresh run v =
    stays context context' vqs (ap (λ (r : Status × TxContext). r.1) (ok-inj run)) v
install_found-Counted K P n klass none context context' vqs none status fresh run v =
    stays context context' vqs (ap (λ (r : Status × TxContext). r.1) (ok-inj run)) v
install_found-Counted K P n klass (some i) context context' vqs none status fresh run (live, c) =
    let (computed, ran, last) = >>=-eq-ok (recompute_rates P _) _ run in
    let added =
      new-IsCounted live context.txcs vqs i (txc_init K P n i klass) c (fresh i refl) refl in
    stays computed context' vqs (ap (λ (r : Status × TxContext). r.1) (ok-inj last)) (
      live ++ (i ∷ []),
      frame-IsCounted (live ++ (i ∷ [])) _ computed.txcs vqs vqs
          (recompute_rates-SamePointers P _ computed ran) (λ u. refl) added,
    )

pub install-Counted :
    (K : Kernel) (P : Params) (n klass : ℕ) (memory : Option ℕ) (context context' : TxContext)
    (vqs : Store Vq) (status : Status)
    → ((i : ℕ) → memory ≡ some i → context.txcs i ≡ none)
    → install K P n memory klass context ≡ ok (status, context')
    → (live : List ℕ) × IsCounted live context.txcs vqs
    → (live : List ℕ) × IsCounted live context'.txcs vqs
unfolding install
install-Counted K P n klass memory context context' vqs status fresh run v =
    let (found, searched, rest) = >>=-eq-ok (txc_find K klass context) _ run in
    install_found-Counted K P n klass memory context context' vqs found status fresh rest v
