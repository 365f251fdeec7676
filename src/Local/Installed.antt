-- ===== src/Local/Installed.antt =====
-- What the installers of the clients come to.
use lsp_client.Base.{◌≡◌, refl, ap, String, Bool, true, false, List, [], ◌∷◌, ◌++◌, if◌then◌else◌}
use lsp_client.Base.Exec.{Result, ok, err}
use lsp_client.Local.{
  Failure, os_error, server_installation_error, Ran, completed, called_process_error, not_started,
  Shell, Os,
}
use lsp_client.Local.Install.{try_installers}

module _ {W : Type 0} (sh : Shell W) where
  -- If every installer before one is missing or exits with an error, and that one is found and
  -- completes, then the installation succeeds, and the installers after it are not run.
  pub try_installers-first :
      (before after : List (String × List String)) (program : String) (args : List String)
      (s t : Os W) (w : W)
      → try_installers sh before s ≡ (err server_installation_error, t)
      → sh.which program t.world ≡ true
      → sh.run_process (program ∷ args) t.world ≡ (completed, w)
      → try_installers sh (before ++ (program, args) ∷ after) s ≡ (ok tt, record t { world = w })
  unfolding try_installers
  try_installers-first [] after program args s t w b f r =
      let same : s ≡ t = ap (λ x. x.1) b in simp (same, f, r) refl
  try_installers-first ((q, more) ∷ before) after program args s t w b f r =
      go (sh.which q s.world) (sh.run_process (q ∷ more) s.world)
        (λ u k. try_installers-first before after program args u t w k f r) b
    where
      runs : Ran × W → (Os W → Result Failure (Unit {0}) × Os W) → Result Failure (Unit {0}) × Os W
      runs x rest = elim x.0 [
        | completed ↦ (ok tt, record s { world = x.1 })
        | called_process_error ↦ rest (record s { world = x.1 })
        | not_started ↦ (err os_error, record s { world = x.1 })
      ]

      go :
          (found : Bool) (x : Ran × W)
          → ((u : Os W)
              → try_installers sh before u ≡ (err server_installation_error, t)
              → try_installers sh (before ++ (program, args) ∷ after) u
                ≡ (ok tt, record t { world = w }))
          → (if found then runs x (try_installers sh before) else try_installers sh before s)
            ≡ (err server_installation_error, t)
          → (if found
              then runs x (try_installers sh (before ++ (program, args) ∷ after))
              else try_installers sh (before ++ (program, args) ∷ after) s)
            ≡ (ok tt, record t { world = w })
      go false x k e = k s e
      go true (completed, v) k e = absurd (cc)
      go true (called_process_error, v) k e = k (record s { world = v }) e
      go true (not_started, v) k e = absurd (cc)
