-- ===== src/Firecracker/Manager/Keys.antt =====
-- Every running VM stands under its own sandbox's ID.
use cage.Common.{
  String, List, [], ◌∷◌, Bool, true, false, Option, none, some, ◌≡◌, refl, sym, subst, str_eq_iff,
  if◌then◌else◌, arith,
}
use cage.Common.Dict.{Dict, lookup, insert, remove, lookup-insert, lookup-remove}
use cage.Common.Exec.{Error, Result, ok, err, and_then, pure, ◌>>=◌, ◌>>◌}
use cage.Firecracker.Manager.{FirecrackerConfig, FirecrackerManager, Machine, VmInstance, M, track}
use cage.Firecracker.Manager.Boot.{boot, create_sandbox}
use cage.Firecracker.Manager.Calls.{
  get, found, untrack, dismantle, is_process, kill_sandbox, exited, adopt_warm_resource, adopted,
  is_running,
}
use cage.Firecracker.Manager.Pauses.{suspend, restore, pause_sandbox, resume_sandbox, pause_dir_of}
use cage.Firecracker.Manager.Spec.{
  Call, create, kill, pause, resume, clean, adopt, exit, exec, write, read, check, shell,
}
use cage.Firecracker.Manager.Tracking.{perform, run}
use cage.Firecracker.Manager.Untouched.{
  boot-Keeps, restore-Keeps, suspend-Keeps, dismantle-Keeps, exec-Keeps, write-Keeps, read-Keeps,
  remove_image-Keeps, open_shell-Keeps,
}

abbrev pub IsKeyed : Dict VmInstance → Type 0
IsKeyed m = (id : String) (vm : VmInstance) → lookup id m ≡ some vm → vm.sandbox_id ≡ id

insert-IsKeyed :
    (id : String) (vm : VmInstance) (m : Dict VmInstance)
    → vm.sandbox_id ≡ id
    → IsKeyed m
    → IsKeyed (insert id vm m)
insert-IsKeyed id vm m e h j w l = grind (arith, h j w, lookup-insert id j vm m, str_eq_iff id j)

remove-IsKeyed : (id : String) (m : Dict VmInstance) → IsKeyed m → IsKeyed (remove id m)
remove-IsKeyed id m h j w l = grind (arith, h j w, lookup-remove id j m)

module _ {H : Type 0} (mc : Machine H) (cfg : FirecrackerConfig) where
  boot-id :
      (id slug : String) (vm : VmInstance) (fm : FirecrackerManager H)
      → (boot mc cfg id slug fm).0 ≡ ok vm
      → vm.sandbox_id ≡ id
  unfolding boot
  boot-id id slug vm fm h = grind arith

  restore-id :
      (id ref : String) (vm : VmInstance) (fm : FirecrackerManager H)
      → (restore mc cfg id ref fm).0 ≡ ok vm
      → vm.sandbox_id ≡ id
  unfolding restore
  restore-id id ref vm fm h = ground arith

  track-IsKeyed :
      (id : String) (r : Result Error VmInstance) (fm : FirecrackerManager H)
      → ((vm : VmInstance) → r ≡ ok vm → vm.sandbox_id ≡ id)
      → IsKeyed fm.running
      → IsKeyed (and_then r (track mc cfg id) fm).1.running
  track-IsKeyed id (ok vm) fm e h = insert-IsKeyed id vm fm.running (e vm refl) h
  track-IsKeyed id (err x) fm e h = h

  found-IsKeyed :
      {A : Type 0} (id : String) (o : Option VmInstance) (k : VmInstance → M mc cfg A)
      (fm : FirecrackerManager H)
      → ((vm : VmInstance) → IsKeyed (k vm fm).1.running)
      → IsKeyed fm.running
      → IsKeyed ((found mc cfg id o >>= k) fm).1.running
  found-IsKeyed id none k fm hk h = h
  found-IsKeyed id (some vm) k fm hk h = hk vm

  removed-IsKeyed :
      (id : String) (r : Result Error (Unit {0})) (a : String) (fm : FirecrackerManager H)
      → IsKeyed fm.running
      → IsKeyed (and_then r (λ _. untrack mc cfg id >> pure a) fm).1.running
  removed-IsKeyed id (ok _) a fm h = remove-IsKeyed id fm.running h
  removed-IsKeyed id (err e) a fm h = h

  adopted-IsKeyed :
      (id placeholder : String) (o : Option VmInstance) (fm : FirecrackerManager H)
      → IsKeyed fm.running
      → IsKeyed (adopted mc cfg id placeholder o fm).1.running
  adopted-IsKeyed id placeholder none fm h = h
  adopted-IsKeyed id placeholder (some vm) fm h =
      insert-IsKeyed id (record vm { sandbox_id = id }) (remove placeholder fm.running) refl
        (remove-IsKeyed placeholder fm.running h)

  exited-IsKeyed :
      (id : String) (b : Bool) (fm : FirecrackerManager H)
      → IsKeyed fm.running
      → IsKeyed (if b then record fm { running = remove id fm.running } else fm).running
  exited-IsKeyed id true fm h = remove-IsKeyed id fm.running h
  exited-IsKeyed id false fm h = h

  same-IsKeyed : (m n : Dict VmInstance) → n ≡ m → IsKeyed m → IsKeyed n
  same-IsKeyed m n e h = subst IsKeyed (sym e) h

  perform-IsKeyed :
      (c : Call) (fm : FirecrackerManager H)
      → IsKeyed fm.running
      → IsKeyed (perform mc cfg c fm).1.running
  unfolding perform create_sandbox kill_sandbox pause_sandbox resume_sandbox get adopt_warm_resource
      exited is_running
  perform-IsKeyed (create id slug) fm h =
      track-IsKeyed id (boot mc cfg id slug fm).0 (boot mc cfg id slug fm).1
        (λ vm. boot-id id slug vm fm) (same-IsKeyed _ _ (boot-Keeps mc cfg id slug fm) h)
  perform-IsKeyed (kill id) fm h =
      found-IsKeyed id (lookup id fm.running) (λ vm. untrack mc cfg id >> dismantle mc cfg vm id) fm
        (λ vm.
          same-IsKeyed _ _
            (dismantle-Keeps mc cfg vm id (record fm { running = remove id fm.running }))
            (remove-IsKeyed id fm.running h))
        h
  perform-IsKeyed (pause id) fm h =
      found-IsKeyed id (lookup id fm.running)
        (λ vm. suspend mc cfg vm (pause_dir_of mc cfg id) >>= λ _.
          untrack mc cfg id >> pure (pause_dir_of mc cfg id))
        fm
        (λ vm.
          removed-IsKeyed id (suspend mc cfg vm (pause_dir_of mc cfg id) fm).0 _
            (suspend mc cfg vm (pause_dir_of mc cfg id) fm).1
            (same-IsKeyed _ _ (suspend-Keeps mc cfg vm (pause_dir_of mc cfg id) fm) h))
        h
  perform-IsKeyed (resume id ref) fm h =
      track-IsKeyed id (restore mc cfg id ref fm).0 (restore mc cfg id ref fm).1
        (λ vm. restore-id id ref vm fm) (same-IsKeyed _ _ (restore-Keeps mc cfg id ref fm) h)
  perform-IsKeyed (clean ref) fm h = same-IsKeyed _ _ (remove_image-Keeps mc cfg ref fm) h
  perform-IsKeyed (adopt id placeholder) fm h =
      adopted-IsKeyed id placeholder (lookup placeholder fm.running) fm h
  perform-IsKeyed (exit id p) fm h =
      exited-IsKeyed id (is_process mc cfg p (lookup id fm.running)) fm h
  perform-IsKeyed (exec id cmd) fm h = same-IsKeyed _ _ (exec-Keeps mc cfg id cmd fm) h
  perform-IsKeyed (write id path content) fm h =
      same-IsKeyed _ _ (write-Keeps mc cfg id path content fm) h
  perform-IsKeyed (read id path) fm h = same-IsKeyed _ _ (read-Keeps mc cfg id path fm) h
  perform-IsKeyed (check id) fm h = h
  perform-IsKeyed (shell id) fm h = same-IsKeyed _ _ (open_shell-Keeps mc cfg id fm) h

  -- Whatever the calls, the ends of processes and the machine's answers, a manager that starts with every running VM
  -- under its own sandbox's ID, as an empty one does, ends so.
  pub run-IsKeyed :
      (cs : List Call) (fm : FirecrackerManager H)
      → IsKeyed fm.running
      → IsKeyed (run mc cfg cs fm).1.running
  unfolding run
  run-IsKeyed [] fm h = h
  run-IsKeyed (c ∷ cs) fm h = run-IsKeyed cs (perform mc cfg c fm).1 (perform-IsKeyed c fm h)
