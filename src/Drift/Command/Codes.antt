-- ===== src/Drift/Command/Codes.antt =====
-- The exit code of the command.
use zonedns.Prelude.{
  ℕ, ◌≤◌, ◌≡◌, ◌↔◌, refl, ◌⊎◌, inl, inr, true, false, some, List, arith, Result-cases, Option-cases,
  Bool-cases,
}
use zonedns.Text.{Str}
use zonedns.Kube.{Kube}
use zonedns.Drift.{is_ok, compare}
use zonedns.Drift.Collect.{
  Collected, collect_virtual_service_hosts, collect_pod_hosts, print_report, run, exit_clean,
  exit_drift, exit_failed,
}
use zonedns.Drift.Verdicts.{IsCollected, collected_iff}
use zonedns.Drift.Runs.{HaveSameNames, is_ok-compare_iff}
use zonedns.Drift.Command.{Cluster, Flags, load_config, listings, pod_hosts, command}

module _ (kube : Kube) (cluster : Cluster kube) (flags : Flags) where
  -- The check was made: the configuration loads, the clients are built, an API version is served
  -- and its listing succeeds, all fields of the VirtualServices can be read, and the pods are listed.
  pub record IsChecked : Type 0 where
    pub config : kube.RestConfig
    pub loaded : load_config kube flags.kubeconfig ≡ some config
    pub typed : kube.Clientset
    pub typed_built : kube.new_clientset config ≡ some typed
    pub dyn : kube.Dynamic
    pub dyn_built : kube.new_dynamic config ≡ some dyn
    pub out : Collected
    pub collected : IsCollected flags.cluster_domain (listings kube cluster flags dyn) out
    pub labels : List Str
    pub pods_listed : pod_hosts kube cluster flags typed ≡ some labels

  checked_or_failed : IsChecked ⊎ ((command kube cluster flags).1 ≡ exit_failed)
  unfolding command run collect_pod_hosts
  checked_or_failed = elim (Option-cases (load_config kube flags.kubeconfig)) [
    | inl a ↦ inr (ground (arith, a))
    | inr (config, a) ↦ elim (Option-cases (kube.new_clientset config)) [
      | inl b ↦ inr (ground (arith, a, b))
      | inr (typed, b) ↦ elim (Option-cases (kube.new_dynamic config)) [
        | inl c ↦ inr (ground (arith, a, b, c))
        | inr (dyn, c) ↦
            elim (Result-cases (
              collect_virtual_service_hosts flags.cluster_domain
                (listings kube cluster flags dyn))) [
                  | inl (e, f) ↦ inr (ground (arith, a, b, c, f))
                  | inr (out, f) ↦ elim (Option-cases (pod_hosts kube cluster flags typed)) [
                    | inl p ↦ inr (ground (arith, a, b, c, f, p))
                    | inr (labels, p) ↦ inl (record {
                      config = config;
                      loaded = a;
                      typed = typed;
                      typed_built = b;
                      dyn = dyn;
                      dyn_built = c;
                      out = out;
                      collected =
                          (collected_iff flags.cluster_domain (listings kube cluster flags dyn)
                              out).0
                            f;
                      labels = labels;
                      pods_listed = p;
                    })
                  ]
                ]
      ]
    ]
  ]

  -- The code of a check that was made.
  checked-code :
      (k : IsChecked)
      → (is_ok (compare k.out.hosts k.labels) ≡ true → (command kube cluster flags).1 ≡ exit_clean)
        × (is_ok (compare k.out.hosts k.labels) ≡ false
            → (command kube cluster flags).1 ≡ exit_drift)
  unfolding command run collect_pod_hosts print_report
  checked-code k =
      let collected =
        (collected_iff flags.cluster_domain (listings kube cluster flags k.dyn) k.out).1
          k.collected in
      (
        λ h. ground (arith, k.loaded, k.typed_built, k.dyn_built, collected, k.pods_listed, h),
        λ h. ground (arith, k.loaded, k.typed_built, k.dyn_built, collected, k.pods_listed, h),
      )

  -- The code is one of three, and each has one meaning.
  pub record HasMeaning (code : ℕ) : Type 0 where
    pub clean : (code ≡ exit_clean) ↔ ((k : IsChecked) × HaveSameNames k.out.hosts k.labels)
    pub drift : (code ≡ exit_drift) ↔ ((k : IsChecked) × ¬ HaveSameNames k.out.hosts k.labels)
    pub failed : (code ≡ exit_failed) ↔ (¬ IsChecked)

  unchecked-HasMeaning :
      ¬ IsChecked
      → (command kube cluster flags).1 ≡ exit_failed
      → HasMeaning (command kube cluster flags).1
  unchecked-HasMeaning never e = rw e record {
    clean = (λ h. ground arith, λ k. absurd (never k.0));
    drift = (λ h. ground arith, λ k. absurd (never k.0));
    failed = (λ _. never, λ _. refl);
  }

  clean_of :
      (k : IsChecked)
      → HaveSameNames k.out.hosts k.labels
      → (command kube cluster flags).1 ≡ exit_clean
  clean_of k same = (checked-code k).0 ((is_ok-compare_iff k.out.hosts k.labels).1 same)

  drift_of :
      (k : IsChecked)
      → ¬ HaveSameNames k.out.hosts k.labels
      → (command kube cluster flags).1 ≡ exit_drift
  drift_of k differ = elim (Bool-cases (is_ok (compare k.out.hosts k.labels))) [
    | inl e ↦ absurd (differ ((is_ok-compare_iff k.out.hosts k.labels).0 e))
    | inr e ↦ (checked-code k).1 e
  ]

  same_or_differ :
      (k : IsChecked) → HaveSameNames k.out.hosts k.labels ⊎ ¬ HaveSameNames k.out.hosts k.labels
  same_or_differ k = elim (Bool-cases (is_ok (compare k.out.hosts k.labels))) [
    | inl e ↦ inl ((is_ok-compare_iff k.out.hosts k.labels).0 e)
    | inr e ↦ inr (λ same. cc (e, (is_ok-compare_iff k.out.hosts k.labels).1 same))
  ]

  checked-HasMeaning : IsChecked → HasMeaning (command kube cluster flags).1
  checked-HasMeaning k = elim (same_or_differ k) [
    | inl same ↦ rw (clean_of k same) record {
      clean = (λ _. (k, same), λ _. refl);
      drift =
          (λ h. ground arith, λ (j, differ). ground (arith, drift_of j differ, clean_of k same));
      failed = (λ h. ground arith, λ never. absurd (never k));
    }
    | inr differ ↦ rw (drift_of k differ) record {
      clean = (λ h. ground arith, λ (j, same). ground (arith, drift_of k differ, clean_of j same));
      drift = (λ _. (k, differ), λ _. refl);
      failed = (λ h. ground arith, λ never. absurd (never k));
    }
  ]

  checked-bound : IsChecked → (command kube cluster flags).1 ≤ 2
  checked-bound k = elim (same_or_differ k) [
    | inl same ↦ omega (arith, clean_of k same)
    | inr differ ↦ omega (arith, drift_of k differ)
  ]

  failed-unchecked : (command kube cluster flags).1 ≡ exit_failed → ¬ IsChecked
  failed-unchecked e k = elim (same_or_differ k) [
    | inl same ↦ omega (arith, clean_of k same, e)
    | inr differ ↦ omega (arith, drift_of k differ, e)
  ]

  -- The exit code of the command is 0, 1 or 2. It is 2 exactly if the check was not made: the
  -- configuration does not load, a client cannot be built, no API version of VirtualServices is
  -- served, a listing of them or of the pods fails, or a field of a listed VirtualService cannot be
  -- read. It is 0 exactly if the check was made and the compared hosts and the labels of the pods are
  -- the same names, the empty one apart, and 1 exactly if it was made and they are not.
  pub command-HasMeaning :
      ((command kube cluster flags).1 ≤ 2) × HasMeaning (command kube cluster flags).1
  command-HasMeaning = elim checked_or_failed [
    | inl k ↦ (checked-bound k, checked-HasMeaning k)
    | inr e ↦ (omega (arith, e), unchecked-HasMeaning (failed-unchecked e) e)
  ]
