-- ===== src/Experiments/Postgres/Accounted.antt =====
-- The accounts of `PostgresExperimentQueue` of src/amlguard/experiments/queue.py.
use amlguard_eu_ai_agent.Prelude.{
  sym, ◌∙◌, ℕ, String, true, false, ◌≡◌, refl, some, [], ◌∷◌, ◌+◌, ◌≤◌, ◌==◌, arith, eq_iff,
  eq_refl, Bool-cases, inl, inr, if◌then◌else◌, subst, ap, ◌⊎◌,
}
use amlguard_eu_ai_agent.Prelude.Dict.{Dict, lookup, put, keys, lookup-put}
use amlguard_eu_ai_agent.Prelude.Entries.{all_distinct-keys-put}
use amlguard_eu_ai_agent.Prelude.Sets.{all_distinct}
use amlguard_eu_ai_agent.Experiments.Postgres.{rounded, ManifestRow, JobRow, Tables}

-- What the jobs of an experiment have reserved together, each reservation rounded to the four
-- decimals of the experiment's account.
abbrev pub share : String → JobRow → ℕ
share id r = if r.job.experiment_id == id then rounded r.reserved else 0

unfoldable pub reserved_of : String → Dict JobRow → ℕ
reserved_of id [] = 0
reserved_of id ((k, r) ∷ d) = share id r + reserved_of id d

pub record Accounted (t : Tables) : Type 0 where
  pub distinct : all_distinct (keys t.jobs) ≡ true
  pub within :
      (id : String) (m : ManifestRow)
      → lookup id t.manifests ≡ some m
      → m.cost_spent ≤ m.cost_ceiling
  pub covered :
      (id : String) (m : ManifestRow)
      → lookup id t.manifests ≡ some m
      → reserved_of id t.jobs ≤ m.cost_reserved

reserved_of-put :
    (id k : String) (r r' : JobRow) (d : Dict JobRow)
    → lookup k d ≡ some r
    → reserved_of id (put k r' d) + share id r ≡ reserved_of id d + share id r'
unfolding reserved_of lookup put
reserved_of-put id k r r' [] h = absurd (cc h)
reserved_of-put id k r r' ((j, x) ∷ d) h = elim (Bool-cases (j == k)) [
  | inl here ↦
      let same : some x ≡ some r =
        subst (λ b. (if b then some x else lookup k d) ≡ some r) here h in
      let one : x ≡ r = cc same in
      let eq : share id x ≡ share id r = ap (share id) one in rw here (omega (arith, eq))
  | inr other ↦
      let below : lookup k d ≡ some r =
        subst (λ b. (if b then some x else lookup k d) ≡ some r) other h in
      rw other (omega (arith, reserved_of-put id k r r' d below))
]

pub share-le :
    (id k : String) (r : JobRow) (d : Dict JobRow)
    → lookup k d ≡ some r
    → share id r ≤ reserved_of id d
unfolding reserved_of lookup
share-le id k r [] h = absurd (cc h)
share-le id k r ((j, x) ∷ d) h = elim (Bool-cases (j == k)) [
  | inl here ↦
      let same : some x ≡ some r =
        subst (λ b. (if b then some x else lookup k d) ≡ some r) here h in
      let one : x ≡ r = cc same in
      let eq : share id x ≡ share id r = ap (share id) one in omega (arith, eq)
  | inr other ↦
      let below : lookup k d ≡ some r =
        subst (λ b. (if b then some x else lookup k d) ≡ some r) other h in
      omega (arith, share-le id k r d below)
]

-- What is found after a write.
put_cases :
    {V : Type 0} (i id : String) (v x : V) (d : Dict V)
    → lookup id (put i v d) ≡ some x
    → (i ≡ id) × (v ≡ x) ⊎ ((i == id) ≡ false) × (lookup id d ≡ some x)
put_cases i id v x d h =
    let h' : (if i == id then some v else lookup id d) ≡ some x = sym (lookup-put i id v d) ∙ h in
    elim (Bool-cases (i == id)) [
      | inl here ↦
          let same : some v ≡ some x =
            subst (λ b. (if b then some v else lookup id d) ≡ some x) here h' in
          inl (ground (arith, eq_iff i id), cc same)
      | inr other ↦ inr (other, subst (λ b. (if b then some v else lookup id d) ≡ some x) other h')
    ]

module _ (t t' : Tables) (a : Accounted t) where
  -- The row of a job changes, and its reservation does not.
  pub job_changed :
      (k : String) (r r' : JobRow)
      → lookup k t.jobs ≡ some r
      → r'.job.experiment_id ≡ r.job.experiment_id
      → r'.reserved ≡ r.reserved
      → t'.manifests ≡ t.manifests
      → t'.jobs ≡ put k r' t.jobs
      → Accounted t'
  job_changed k r r' found same kept ms js = record {
    distinct = rw js (all_distinct-keys-put k r' t.jobs a.distinct);
    within = λ id m e. a.within id m (rw⁻¹ ms e);
    covered = λ id m e.
        let eq : share id r' ≡ share id r = rw (same, kept) refl in
        rw js
          (omega (arith, a.covered id m (rw⁻¹ ms e), reserved_of-put id k r r' t.jobs found, eq));
  }

  -- The row of a manifest changes, and its accounts do not.
  pub manifest_changed :
      (i : String) (m m' : ManifestRow)
      → lookup i t.manifests ≡ some m
      → m'.cost_ceiling ≡ m.cost_ceiling
      → m'.cost_spent ≡ m.cost_spent
      → m'.cost_reserved ≡ m.cost_reserved
      → t'.manifests ≡ put i m' t.manifests
      → t'.jobs ≡ t.jobs
      → Accounted t'
  manifest_changed i m m' found same spent kept ms js =
      let fits : m'.cost_spent ≤ m'.cost_ceiling = rw (same, spent) (a.within i m found) in
      record {
        distinct = rw js a.distinct;
        within = λ id x e. elim (put_cases i id m' x t.manifests (rw⁻¹ ms e)) [
          | inl (_, new) ↦ subst (λ (y : ManifestRow). y.cost_spent ≤ y.cost_ceiling) new fits
          | inr (_, old) ↦ a.within id x old
        ];
        covered = λ id x e. rw js (elim (put_cases i id m' x t.manifests (rw⁻¹ ms e)) [
          | inl (here, new) ↦
              subst (λ (y : ManifestRow). reserved_of id t.jobs ≤ y.cost_reserved) new
                (rw kept (a.covered id m (subst (λ y. lookup y t.manifests ≡ some m) here found)))
          | inr (_, old) ↦ a.covered id x old
        ]);
      }

  -- A job and the manifest of its experiment change together.
  pub both_changed :
      (i k : String) (m m' : ManifestRow) (r r' : JobRow)
      → r.job.experiment_id ≡ i
      → lookup i t.manifests ≡ some m
      → lookup k t.jobs ≡ some r
      → m'.cost_spent ≤ m'.cost_ceiling
      → r'.job.experiment_id ≡ r.job.experiment_id
      → m.cost_reserved + rounded r'.reserved ≤ m'.cost_reserved + rounded r.reserved
      → t'.manifests ≡ put i m' t.manifests
      → t'.jobs ≡ put k r' t.jobs
      → Accounted t'
  both_changed i k m m' r r' own found stored fits same moved ms js = record {
    distinct = rw js (all_distinct-keys-put k r' t.jobs a.distinct);
    within = λ id x e. elim (put_cases i id m' x t.manifests (rw⁻¹ ms e)) [
      | inl (_, new) ↦ subst (λ (y : ManifestRow). y.cost_spent ≤ y.cost_ceiling) new fits
      | inr (_, old) ↦ a.within id x old
    ];
    covered = λ id x e. rw js (elim (put_cases i id m' x t.manifests (rw⁻¹ ms e)) [
      | inl (here, new) ↦
          let mine : share id r ≡ rounded r.reserved =
            ground (arith, eq_iff r.job.experiment_id id, here, own, eq_refl id) in
          let mine' : share id r' ≡ rounded r'.reserved =
            rw same (ground (arith, eq_iff r.job.experiment_id id, here, own, eq_refl id)) in
          let total = a.covered id m (subst (λ y. lookup y t.manifests ≡ some m) here found) in
          subst (λ (y : ManifestRow). reserved_of id (put k r' t.jobs) ≤ y.cost_reserved) new
            (omega (arith, mine, mine', total, moved, reserved_of-put id k r r' t.jobs stored))
      | inr (other, old) ↦
          let none_of_it : share id r ≡ 0 = rw (own, other) refl in
          let none_of_it' : share id r' ≡ 0 = rw (same, own, other) refl in
          omega (
            arith,
            a.covered id x old,
            none_of_it,
            none_of_it',
            reserved_of-put id k r r' t.jobs stored,
          )
    ]);
  }
