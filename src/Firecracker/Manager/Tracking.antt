-- ===== src/Firecracker/Manager/Tracking.antt =====
-- FirecrackerManager refines its specification.
use cage.Common.{
  ℕ, String, List, [], ◌∷◌, Bool, true, false, Option, none, some, ◌≡◌, ◌≢◌, refl, ap, ◌∙◌, str_eq,
  if◌then◌else◌, arith,
}
use cage.Common.Dict.{lookup, remove}
use cage.Common.Exec.{Error, Result, ok, err, pure, ◌>>=◌, ◌>>◌}
use cage.Firecracker.Manager.{FirecrackerConfig, FirecrackerManager, Machine, VmInstance, track}
use cage.Firecracker.Manager.Boot.{boot, create_sandbox}
use cage.Firecracker.Manager.Calls.{
  get, untrack, dismantle, is_process, exec_command, write_file, read_file, kill_sandbox, exited,
  is_running, is_tracked, open_shell, adopt_warm_resource, adopted as adopted_step,
}
use cage.Firecracker.Manager.Pauses.{
  pause_dir_of, suspend, restore, pause_sandbox, resume_sandbox, remove_image,
}
use cage.Firecracker.Manager.Untouched.{
  boot-Keeps, restore-Keeps, suspend-Keeps, dismantle-Keeps, exec-Keeps, write-Keeps, read-Keeps,
  remove_image-Keeps, open_shell-Keeps,
}
use cage.Firecracker.Manager.Spec.{
  Call, create, kill, pause, resume, clean, adopt, exit, exec, write, read, check, shell, Step,
  created, resumed, killed, paused, adopted, gone, stale, refused, seen, unseen, entered, asked,
  written, fetched, cleaned, Steps, done, more,
}
use cage.Firecracker.Manager.Follows.{
  is_ok, process_of, table, table-insert, table-remove, Follows, quiet-Follows, and_then-Follows,
  found-Follows, inserted, dropped,
}

module _ {H : Type 0} (mc : Machine H) (cfg : FirecrackerConfig) where
  abbrev outcome :
      {A : Type 0} → Result Error A × FirecrackerManager H → Bool × FirecrackerManager H
  outcome (r, fm) = (is_ok r, fm)

  -- IsRunning's error is nil.
  abbrev answer : Result Error Bool × FirecrackerManager H → Bool × FirecrackerManager H
  answer (ok b, fm) = (b, fm)
  answer (err e, fm) = (false, fm)

  unfoldable pub perform : Call → FirecrackerManager H → Bool × FirecrackerManager H
  perform (create id slug) fm = outcome (create_sandbox mc cfg id slug fm)
  perform (kill id) fm = outcome (kill_sandbox mc cfg id fm)
  perform (pause id) fm = outcome (pause_sandbox mc cfg id fm)
  perform (resume id ref) fm = outcome (resume_sandbox mc cfg id ref fm)
  perform (clean ref) fm = outcome (remove_image mc cfg ref fm)
  perform (adopt id placeholder) fm = outcome (adopt_warm_resource mc cfg id placeholder fm)
  perform (exit id p) fm = outcome (exited mc cfg id p fm)
  perform (exec id cmd) fm = outcome (exec_command mc cfg id cmd fm)
  perform (write id path content) fm = outcome (write_file mc cfg id path content fm)
  perform (read id path) fm = outcome (read_file mc cfg id path fm)
  perform (check id) fm = answer (is_running mc cfg id fm)
  perform (shell id) fm = outcome (open_shell mc cfg id fm)

  create-Follows :
      (id slug : String) (fm : FirecrackerManager H)
      → Follows mc cfg fm (create id slug) (create_sandbox mc cfg id slug fm)
  unfolding create_sandbox
  create-Follows id slug fm =
      let fm' = (boot mc cfg id slug fm).1 in
      let h = boot-Keeps mc cfg id slug fm in
      and_then-Follows mc cfg _ (boot mc cfg id slug fm).0 (track mc cfg id) fm fm' refl h
        λ vm. created id slug vm.process (inserted mc cfg id vm fm fm' h)

  resume-Follows :
      (id ref : String) (fm : FirecrackerManager H)
      → Follows mc cfg fm (resume id ref) (resume_sandbox mc cfg id ref fm)
  unfolding resume_sandbox
  resume-Follows id ref fm =
      let fm' = (restore mc cfg id ref fm).1 in
      let h = restore-Keeps mc cfg id ref fm in
      and_then-Follows mc cfg _ (restore mc cfg id ref fm).0 (track mc cfg id) fm fm' refl h
        λ vm. resumed id ref vm.process (inserted mc cfg id vm fm fm' h)

  kill-Follows :
      (id : String) (fm : FirecrackerManager H)
      → Follows mc cfg fm (kill id) (kill_sandbox mc cfg id fm)
  unfolding kill_sandbox get
  kill-Follows id fm =
      found-Follows mc cfg _ id (lookup id fm.running)
        (λ vm. untrack mc cfg id >> dismantle mc cfg vm id) fm refl
        λ vm h. killed id vm.process _ (ap process_of h) (
          dropped mc cfg id fm
            (dismantle mc cfg vm id (record fm { running = remove id fm.running })).1
            (dismantle-Keeps mc cfg vm id (record fm { running = remove id fm.running })))

  pause-Follows :
      (id : String) (fm : FirecrackerManager H)
      → Follows mc cfg fm (pause id) (pause_sandbox mc cfg id fm)
  unfolding pause_sandbox get
  pause-Follows id fm =
      found-Follows mc cfg _ id (lookup id fm.running)
        (λ vm. suspend mc cfg vm (pause_dir_of mc cfg id) >>= λ _.
          untrack mc cfg id >> pure (pause_dir_of mc cfg id))
        fm refl
        λ vm h.
          let fm' = (suspend mc cfg vm (pause_dir_of mc cfg id) fm).1 in
          let g = suspend-Keeps mc cfg vm (pause_dir_of mc cfg id) fm in
          and_then-Follows mc cfg _ (suspend mc cfg vm (pause_dir_of mc cfg id) fm).0
            (λ _. untrack mc cfg id >> pure (pause_dir_of mc cfg id)) fm fm' refl g
            λ _. paused id vm.process (ap process_of h) (
              dropped mc cfg id fm (record fm' { running = remove id fm'.running })
                (ap (remove id) g))

  adopted-Follows :
      (id placeholder : String) (o : Option VmInstance) (fm : FirecrackerManager H)
      → lookup placeholder fm.running ≡ o
      → Follows mc cfg fm (adopt id placeholder) (adopted_step mc cfg id placeholder o fm)
  adopted-Follows id placeholder none fm h = refused _ refl λ _. refl
  adopted-Follows id placeholder (some vm) fm h =
      adopted id placeholder vm.process (ap process_of h) λ j.
        table-insert id j (record vm { sandbox_id = id }) (remove placeholder fm.running)
        ∙ ap (λ q. if str_eq id j then some vm.process else q)
            (table-remove placeholder j fm.running)

  adopt-Follows :
      (id placeholder : String) (fm : FirecrackerManager H)
      → Follows mc cfg fm (adopt id placeholder) (adopt_warm_resource mc cfg id placeholder fm)
  unfolding adopt_warm_resource
  adopt-Follows id placeholder fm =
      adopted-Follows id placeholder (lookup placeholder fm.running) fm refl

  is_process-true :
      (p : ℕ) (o : Option VmInstance) → is_process mc cfg p o ≡ true → process_of o ≡ some p
  is_process-true p none h = ground arith
  is_process-true p (some vm) h = ground arith

  is_process-false :
      (p : ℕ) (o : Option VmInstance) → is_process mc cfg p o ≡ false → process_of o ≢ some p
  is_process-false p none h e = ground arith
  is_process-false p (some vm) h e = ground arith

  exited-Follows :
      (id : String) (p : ℕ) (b : Bool) (fm : FirecrackerManager H)
      → is_process mc cfg p (lookup id fm.running) ≡ b
      → Step
          (table fm)
          (exit id p)
          true
          (table (if b then record fm { running = remove id fm.running } else fm))
  exited-Follows id p true fm h =
      gone id p (is_process-true p _ h) λ j. table-remove id j fm.running
  exited-Follows id p false fm h = stale id p (is_process-false p _ h) λ _. refl

  checked-Follows :
      (id : String) (o : Option VmInstance) (fm : FirecrackerManager H)
      → lookup id fm.running ≡ o
      → Step (table fm) (check id) (is_tracked mc cfg o) (table fm)
  checked-Follows id none fm h = unseen id (ap process_of h) λ _. refl
  checked-Follows id (some vm) fm h = seen id vm.process (ap process_of h) λ _. refl

  -- One call on the manager is one step of the specification.
  perform-Step :
      (c : Call) (fm : FirecrackerManager H)
      → Step (table fm) c (perform c fm).0 (table (perform c fm).1)
  unfolding perform exited is_running
  perform-Step (create id slug) fm = create-Follows id slug fm
  perform-Step (kill id) fm = kill-Follows id fm
  perform-Step (pause id) fm = pause-Follows id fm
  perform-Step (resume id ref) fm = resume-Follows id ref fm
  perform-Step (clean ref) fm =
      quiet-Follows mc cfg _ fm (remove_image mc cfg ref fm) refl (λ _ _. cleaned ref)
        (remove_image-Keeps mc cfg ref fm)
  perform-Step (adopt id placeholder) fm = adopt-Follows id placeholder fm
  perform-Step (exit id p) fm = exited-Follows id p _ fm refl
  perform-Step (exec id cmd) fm =
      quiet-Follows mc cfg _ fm (exec_command mc cfg id cmd fm) refl (λ _ _. asked id cmd)
        (exec-Keeps mc cfg id cmd fm)
  perform-Step (write id path content) fm =
      quiet-Follows mc cfg _ fm (write_file mc cfg id path content fm) refl
        (λ _ _. written id path content) (write-Keeps mc cfg id path content fm)
  perform-Step (read id path) fm =
      quiet-Follows mc cfg _ fm (read_file mc cfg id path fm) refl (λ _ _. fetched id path)
        (read-Keeps mc cfg id path fm)
  perform-Step (check id) fm = checked-Follows id (lookup id fm.running) fm refl
  perform-Step (shell id) fm =
      quiet-Follows mc cfg _ fm (open_shell mc cfg id fm) refl (λ _ _. entered id)
        (open_shell-Keeps mc cfg id fm)

  unfoldable pub run : List Call → FirecrackerManager H → List Bool × FirecrackerManager H
  run [] fm = ([], fm)
  run (c ∷ cs) fm = let (b, fm') = perform c fm in let (bs, fm'') = run cs fm' in (b ∷ bs, fm'')

  -- Any sequence of calls on the manager, and of ends of its processes, whatever the machine answers,
  -- is a run of the specification: its table of processes by sandbox starts as the manager's, takes
  -- one step for every call, with the call's outcome, and ends as the manager's. IsRunning's outcome
  -- is its answer, which tells whether the table has the sandbox.
  pub run_refines :
      (cs : List Call) (fm : FirecrackerManager H)
      → Steps (table fm) cs (run cs fm).0 (table (run cs fm).1)
  unfolding run
  run_refines [] fm = done
  run_refines (c ∷ cs) fm = more (perform-Step c fm) (run_refines cs (perform c fm).1)
