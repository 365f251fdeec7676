-- ===== src/Local.antt =====
-- server/local.py: the process of a local server. What the operating system does with a program is
-- a parameter.
pub mod Install
pub mod Ended
pub mod Installed
pub mod Tests
use lsp_client.Base.{
  ℕ, String, Bool, true, false, not, Option, none, some, List, [], ◌∷◌, if◌then◌else◌,
}
use lsp_client.Base.Exec.{Result, ok, err, Exec, pure, raise, ◌>>=◌, ◌>>◌}

-- server/error.py, and the exceptions of the Python library that matter here. Another exception is a number.
pub data Failure : Type 0 where
  server_runtime_error server_installation_error : Failure
  os_error runtime_error attribute_error : Failure
  -- the task was cancelled
  cancelled : Failure
  other : ℕ → Failure

-- What became of a command that was run to its end.
pub data Ran : Type 0 where
  -- with exit code 0; with another, `CalledProcessError`; or it could not be started, `OSError`
  completed called_process_error not_started : Ran

pub data Waited : Type 0 where
  returned : ℕ → Waited
  timed_out wait_failed : Waited
  -- the waiting task was cancelled
  interrupted : Waited

-- `self._process`: none yet, or running, told to terminate, ended, or killed
pub data Process : Type 0 where
  absent running terminating killed : Process
  ended : ℕ → Process

-- The operating system, whose state is `W`.
pub record Shell (W : Type 0) : Type 0 where
  pub which : String → W → Bool
  pub run_process : List String → W → Ran × W
  -- whether the process could be started
  pub open_process : List String → W → Bool × W
  -- `returncode is None`, and whether `terminate` found the process
  pub is_running : W → Bool
  pub terminate : W → Bool × W
  -- `wait` within the shutdown timeout
  pub wait : W → Waited × W
  -- whether `kill` found the process
  pub kill : W → Bool × W

pub record Os (W : Type 0) : Type 0 where
  pub world : W
  pub process : Process

abbrev pub Call : Type 0 → Type 0 → Type 0
Call W A = Exec (Os W) Failure A

pub record LocalServer (W : Type 0) : Type 0 where
  pub program : String
  pub args : List String
  pub ensure_installed : Option (Call W (Unit {0}))
  -- `disable_auto_installation()`
  pub auto_installation_disabled : Bool

module _ {W : Type 0} (sh : Shell W) where
  unfoldable pub check_availability : LocalServer W → Call W (Unit {0})
  check_availability server s =
      if sh.which server.program s.world then (ok tt, s) else (err server_runtime_error, s)

  abbrev install : LocalServer W → Call W (Unit {0})
  install server =
      if server.auto_installation_disabled
      then raise server_runtime_error
      else elim server.ensure_installed [ some ensure ↦ ensure | none ↦ raise server_runtime_error ]

  abbrev or_install :
      LocalServer W → Result Failure (Unit {0}) × Os W → Result Failure (Unit {0}) × Os W
  or_install server (err server_runtime_error, s) = install server s
  or_install server r = r

  -- `try: await self.check_availability() except ServerRuntimeError: …`
  unfoldable pub ensure_available : LocalServer W → Call W (Unit {0})
  unfolding check_availability
  ensure_available server s = or_install server (check_availability server s)

  abbrev pub killed_by : Os W → Bool × W → Result Failure (Unit {0}) × Os W
  killed_by s (true, w) = (ok tt, record { world = w; process = killed })
  killed_by s (false, w) = (err os_error, record s { world = w })

  -- Reading `self._process` without a process is an `AttributeError`.
  abbrev pub kill_with : Process → Call W (Unit {0})
  kill_with absent s = (err attribute_error, s)
  kill_with _ s = killed_by s (sh.kill s.world)

  unfoldable pub kill : Call W (Unit {0})
  kill s = kill_with s.process s

  -- `except (TimeoutError, OSError)` around `wait`
  abbrev pub await : Os W → Waited × W → Result Failure (Unit {0}) × Os W
  await s (returned code, w) = (ok tt, record { world = w; process = ended code })
  await s (timed_out, w) = kill (record s { world = w })
  await s (wait_failed, w) = kill (record s { world = w })
  await s (interrupted, w) = (err cancelled, record s { world = w })

  abbrev pub terminated : Os W → Bool × W → Result Failure (Unit {0}) × Os W
  terminated s (true, w) = await (record s { process = terminating }) (sh.wait w)
  terminated s (false, w) = kill (record s { world = w })

  -- The inner `try` of the `finally`.
  unfoldable pub stop : Call W (Unit {0})
  unfolding kill
  stop s =
      if sh.is_running s.world
      then terminated s (sh.terminate s.world)
      else await s (sh.wait s.world)

  -- The `finally`: without a process, `self._process.returncode` is an `AttributeError`.
  abbrev pub stop_with : Process → Call W (Unit {0})
  stop_with absent s = (err attribute_error, s)
  stop_with _ s = stop s

  unfoldable pub stop_process : Call W (Unit {0})
  unfolding stop
  stop_process s = stop_with s.process s

  -- `except (OSError, RuntimeError)`
  abbrev pub wrap : {A : Type 0} → Result Failure A → Result Failure A
  wrap (err os_error) = err server_runtime_error
  wrap (err runtime_error) = err server_runtime_error
  wrap r = r

  abbrev pub after : {A : Type 0} → Result Failure A → Result Failure (Unit {0}) → Result Failure A
  after r (ok u) = r
  after r (err e) = err e

  abbrev pub start : {A : Type 0} → Bool × W → Call W A → Call W A
  start (true, w) body s = body (record { world = w; process = running })
  start (false, w) body s = (err os_error, record s { world = w })

  -- From `try: self._process = await anyio.open_process(…)` on.
  unfoldable pub with_process : {A : Type 0} → LocalServer W → Call W A → Call W A
  unfolding stop_process
  with_process server body s =
      let r = start (sh.open_process (server.program ∷ server.args) s.world) body s in
      let l = stop_process r.1 in (after (wrap r.0) l.0, l.1)

  -- `async with self.run_process(workspace): body`
  unfoldable pub run_process : {A : Type 0} → LocalServer W → Call W A → Call W A
  unfolding ensure_available with_process ◌>>=◌
  run_process server body = do ensure_available server; with_process server body
