-- ===== src/Service/Sizes.antt =====
-- What the configuration of an app of service/svc_app.go holds behind `Prepare`.
use pmesh.Base.{
  ℕ, ◌≤◌, ◌<◌, ◌≡◌, true, false, Option, none, some, [], ◌∷◌, arith, refl, ◌==◌, Bool-cases, inl,
  inr, length, take,
}
use pmesh.Base.Int.{ℤ, pos, ◌≤ℤ◌, ◌<ℤ◌, ◌*ℤ◌, negsuc, quot_ℤ, i64}
use pmesh.Base.Text.{Text, codes, has_suffix}
use pmesh.Base.Decimal.{atoi}
use pmesh.Retry.{or_else}
use pmesh.Service.App.{
  Floats, AppService, AppOptions, ok, cluster_size, scale_defaults, complete, prepare, at_least_one,
  scaled, plain, sized,
}

or_else_positive : (d o : ℤ) → pos 0 ≤ℤ o → pos 0 ≤ℤ or_else d o
unfolding or_else
or_else_positive d o h = ground arith

at_least_one_positive : (a : ℤ) → 1 ≤ at_least_one a
at_least_one_positive (pos n) = ground arith
at_least_one_positive (negsuc n) = ground arith

scaled_positive : (cpus : ℕ) (v : Option ℤ) (n : ℕ) → scaled cpus v ≡ some n → 1 ≤ n
scaled_positive cpus none n e = ground arith
scaled_positive cpus (some a) n e =
    let h = at_least_one_positive (quot_ℤ (i64 (a *ℤ pos cpus)) 100) in ground arith

plain_positive : (v : Option ℤ) (n : ℕ) → plain v ≡ some n → 1 ≤ n
plain_positive none n e = ground arith
plain_positive (some a) n e = let h = at_least_one_positive a in ground arith

cluster_size_positive : (cpus : ℕ) (s : Text) (n : ℕ) → cluster_size cpus s ≡ some n → 1 ≤ n
unfolding cluster_size
cluster_size_positive cpus [] n e = ground arith
cluster_size_positive cpus (c ∷ s) n e = elim (Bool-cases (has_suffix (c ∷ s) (codes "%"))) [
  | inl percent ↦ let v = atoi (take (length s) (c ∷ s)) in scaled_positive cpus v n (ground arith)
  | inr count ↦ plain_positive (atoi (c ∷ s)) n (ground arith)
]

module _ {ℓ} {F : Type ℓ} (fl : Floats F) where
  -- The numbers of instances, the streak and the stop timeout of a configuration fit together.
  abbrev pub IsSized : AppService F → Type 0
  IsSized app =
      (1 ≤ app.cluster_min)
      × (app.cluster_min ≤ app.cluster_n)
      × (app.auto_scale ≡ false → app.cluster_min ≡ app.cluster_n)
      × (app.auto_scale ≡ true → (1 < app.cluster_n) × (pos 0 <ℤ app.auto_scale_streak))
      × (pos 0 ≤ℤ app.stop_timeout)

  scale_defaults-IsSized :
      (app : AppService F)
      → 1 ≤ app.cluster_min
      → app.cluster_min ≤ app.cluster_n
      → pos 0 ≤ℤ app.stop_timeout
      → IsSized (scale_defaults fl app)
  unfolding scale_defaults
  scale_defaults-IsSized app h l s = elim (Bool-cases app.auto_scale) [
    | inl e ↦ elim (Bool-cases (app.cluster_n == 1)) [
      | inl one ↦ rw (e, one) (ground arith)
      | inr many ↦ rw (e, many) (ground arith)
    ]
    | inr e ↦ rw e (ground arith)
  ]

  sized-IsSized :
      (join : Text → Text → Text) (opt : AppOptions) (app app' : AppService F) (n least : Option ℕ)
      → ((a : ℕ) → n ≡ some a → 1 ≤ a)
      → ((a : ℕ) → least ≡ some a → 1 ≤ a)
      → sized fl join opt app n least ≡ ok app'
      → IsSized app'
  unfolding complete
  sized-IsSized join opt app app' none least hn hl e = ground arith
  sized-IsSized join opt app app' (some n) none hn hl e = ground arith
  sized-IsSized join opt app app' (some n) (some least) hn hl e =
      let i : scale_defaults fl (complete fl join opt n least app) ≡ app' = ground arith in
      let h = hn n refl in
      let l = hl least refl in
      let s = or_else_positive app.stop_timeout (pos 10_000_000_000) (omega arith) in
      rw (← i)
        (scale_defaults-IsSized (complete fl join opt n least app) (ground arith) (ground arith) s)

  -- `Prepare` returns only configurations in which there is at least one instance, the minimum is at
  -- most the maximum and is the maximum without auto-scaling, which is on only for two or more
  -- instances and then with a positive streak, and in which the stop timeout is not negative.
  pub prepare-IsSized :
      (join : Text → Text → Text) (cpus : ℕ) (opt : AppOptions) (app app' : AppService F)
      → prepare fl join cpus opt app ≡ ok app'
      → IsSized app'
  unfolding prepare
  prepare-IsSized join cpus opt app app' e =
      sized-IsSized join opt app app' (cluster_size cpus app.cluster)
        (cluster_size cpus app.cluster_min_text) (cluster_size_positive cpus app.cluster)
        (cluster_size_positive cpus app.cluster_min_text) (ground arith)
