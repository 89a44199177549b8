-- ===== src/Cluster/FanOut/Split.antt =====
-- Where the targets of `fanOut` stand in a pool of workers: done, with a worker, or waiting.
use projection.Kube.Value.{Fields}
use projection.Kube.Server.{Reply}
use projection.Cluster.FanOut.{writing, reading, Worker}
use projection.Prelude.{sym, ◌∙◌, refl, subst, ap, [], ◌≡◌, ◌∷◌, ◌++◌, String, List}
use mathlib.Core.List.Perm
use mathlib.Core.List.{Perm, perm_middle, append_assoc, append-nil}
use mathlib.Core.Path.{subst₂}

abbrev pub namespaces_of : List Worker → List String
namespaces_of [] = []
namespaces_of (reading ns ∷ workers) = ns ∷ namespaces_of workers
namespaces_of (writing ns _ ∷ workers) = ns ∷ namespaces_of workers

pub namespaces_of-append :
    (before after : List Worker)
    → namespaces_of (before ++ after) ≡ namespaces_of before ++ namespaces_of after
namespaces_of-append [] after = refl
namespaces_of-append (reading ns ∷ before) after =
    ap (λ (l : List String). ns ∷ l) (namespaces_of-append before after)
namespaces_of-append (writing ns _ ∷ before) after =
    ap (λ (l : List String). ns ∷ l) (namespaces_of-append before after)

-- Each target is in exactly one of the three, as often as it is a target.
abbrev pub Split : List String → List String → List Worker → List String → Type 0
Split targets done running waiting = Perm (done ++ (namespaces_of running ++ waiting)) targets

module _ (targets done : List String) where
  pub Split-take :
      (ns : String) (running : List Worker) (waiting : List String)
      → Split targets done running (ns ∷ waiting)
      → Split targets done (reading ns ∷ running) waiting
  Split-take ns running waiting h =
      Perm.trans (Perm.append_left done (Perm.symm (perm_middle (namespaces_of running) waiting))) h

  pub Split-read :
      (before : List Worker) (ns : String) (reply : Reply Fields) (after : List Worker)
      (waiting : List String)
      → Split targets done (before ++ (reading ns ∷ after)) waiting
      → Split targets done (before ++ (writing ns reply ∷ after)) waiting
  Split-read before ns reply after waiting h =
      subst (λ (l : List String). Perm (done ++ (l ++ waiting)) targets)
        (namespaces_of-append before (reading ns ∷ after)
          ∙ sym (namespaces_of-append before (writing ns reply ∷ after)))
        h

  pub Split-end :
      (before : List Worker) (ns : String) (reply : Reply Fields) (after : List Worker)
      (waiting : List String)
      → Split targets done (before ++ (writing ns reply ∷ after)) waiting
      → Split targets (done ++ (ns ∷ [])) (before ++ after) waiting
  Split-end before ns reply after waiting h =
      let b = namespaces_of before in
      let c = namespaces_of after in
      let moved : Perm (done ++ (ns ∷ ((b ++ c) ++ waiting)))
          (done ++ ((b ++ (ns ∷ c)) ++ waiting)) =
        Perm.append_left done (Perm.symm (Perm.append_right waiting (perm_middle b c))) in
      rw (namespaces_of-append before after, append_assoc done (ns ∷ []) ((b ++ c) ++ waiting))
        (Perm.trans moved (
          subst (λ (l : List String). Perm (done ++ (l ++ waiting)) targets)
            (namespaces_of-append before (writing ns reply ∷ after)) h))

  -- When the pool has finished, what is done is the targets.
  pub Split-finished :
      {running : List Worker} {waiting : List String}
      → waiting ≡ []
      → running ≡ []
      → Split targets done running waiting
      → Perm done targets
  Split-finished waits runs h =
      subst (λ (l : List String). Perm l targets) (append-nil done)
        (subst₂ (λ (u : List Worker) (v : List String). Split targets done u v) runs waits h)
