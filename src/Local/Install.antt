-- ===== src/Local/Install.antt =====
-- `ensure_…_installed` of the clients.
use lsp_client.Base.{String, List, [], ◌∷◌, if◌then◌else◌}
use lsp_client.Base.Exec.{Result, ok, err}
use lsp_client.Local.{
  Shell, Os, Call, Failure, Ran, completed, called_process_error, not_started, os_error,
  server_installation_error,
}

-- What an installer that was run comes to: `CalledProcessError` is caught, `OSError` is not.
abbrev pub outcome : {W : Type 0} → Os W → Ran × W → Result Failure (Unit {0}) × Os W
outcome s (completed, w) = (ok tt, record s { world = w })
outcome s (called_process_error, w) = (err server_installation_error, record s { world = w })
outcome s (not_started, w) = (err os_error, record s { world = w })

module _ {W : Type 0} (sh : Shell W) where
  -- `if shutil.which(program): return`, and then the one command
  unfoldable pub ensure_by : String → List String → Call W (Unit {0})
  ensure_by program command s =
      if sh.which program s.world then (ok tt, s) else outcome s (sh.run_process command s.world)

  abbrev pub ensure_pyright_installed : Call W (Unit {0})
  ensure_pyright_installed =
      ensure_by "pyright-langserver" ("npm" ∷ "install" ∷ "-g" ∷ "pyright" ∷ [])

  -- With `sys.executable`.
  abbrev pub ensure_ty_installed : String → Call W (Unit {0})
  ensure_ty_installed python = ensure_by "ty" (python ∷ "-m" ∷ "pip" ∷ "install" ∷ "ty" ∷ [])

  abbrev pub ensure_gopls_installed : Call W (Unit {0})
  ensure_gopls_installed =
      ensure_by "gopls" ("go" ∷ "install" ∷ "golang.org/x/tools/gopls@latest" ∷ [])

  abbrev pub ensure_rust_analyzer_installed : Call W (Unit {0})
  ensure_rust_analyzer_installed =
      ensure_by "rust-analyzer" ("rustup" ∷ "component" ∷ "add" ∷ "rust-analyzer" ∷ [])

  abbrev pub ensure_typescript_installed : Call W (Unit {0})
  ensure_typescript_installed =
      ensure_by "typescript-language-server"
        ("npm" ∷ "install" ∷ "-g" ∷ "typescript-language-server" ∷ "typescript" ∷ [])

  abbrev pub ensure_deno_installed : Call W (Unit {0})
  ensure_deno_installed =
      ensure_by "deno" ("sh" ∷ "-c" ∷ "curl -fsSL https://deno.land/install.sh | sh" ∷ [])

  unfoldable pub ensure_jdtls_installed : Call W (Unit {0})
  ensure_jdtls_installed s =
      if sh.which "jdtls" s.world then (ok tt, s) else (err server_installation_error, s)

  -- uv, or else pip, or else nothing
  unfoldable pub ensure_pyrefly_installed : Call W (Unit {0})
  ensure_pyrefly_installed s =
      if sh.which "pyrefly" s.world
      then (ok tt, s)
      else if sh.which "uv" s.world
      then outcome s (sh.run_process ("uv" ∷ "tool" ∷ "install" ∷ "pyrefly" ∷ []) s.world)
      else if sh.which "pip" s.world
      then outcome s (sh.run_process ("pip" ∷ "install" ∷ "pyrefly" ∷ []) s.world)
      else (ok tt, s)

  -- The loop over the installers: each is its program and its arguments.
  unfoldable pub try_installers : List (String × List String) → Call W (Unit {0})
  try_installers [] s = (err server_installation_error, s)
  try_installers ((program, args) ∷ rest) s =
      if sh.which program s.world
      then (let r = sh.run_process (program ∷ args) s.world in
          let after = record s { world = r.1 } in
          elim r.0 [
            | completed ↦ (ok tt, after)
            | called_process_error ↦ try_installers rest after
            | not_started ↦ (err os_error, after)
          ])
      else try_installers rest s

  unfoldable pub ensure_basedpyright_installed : String → Call W (Unit {0})
  unfolding try_installers
  ensure_basedpyright_installed python s =
      if sh.which "basedpyright-langserver" s.world
      then (ok tt, s)
      else try_installers
          (("uv", "tool" ∷ "install" ∷ "basedpyright" ∷ [])
            ∷ ("npm", "install" ∷ "-g" ∷ "basedpyright" ∷ [])
            ∷ (python, "-m" ∷ "pip" ∷ "install" ∷ "basedpyright" ∷ [])
            ∷ [])
          s
