-- ===== src/Firecracker/Rootfs.antt =====
-- internal/firecracker/rootfs.go: one base image per template, copied for every sandbox.
use cage.Common.{String, concat, if◌then◌else◌}
use cage.Common.Text.{join_path}
use cage.Common.Exec.{Exec, Error, Result, ok, err, wrap, pure, fail, attempt, or_wrap, ◌>>=◌, ◌>>◌}
use cage.Firecracker.Host.{Host}

pub record RootfsManager : Type 0 where
  pub base_dir : String
  pub work_dir : String

module _ {H : Type 0} (os : Host H) where
  unfoldable pub new_rootfs_manager : String → String → Exec Error H RootfsManager
  new_rootfs_manager base_dir work_dir = do
    or_wrap "failed to create rootfs work dir" (os.mkdir_all work_dir)
    pure (record { base_dir = base_dir; work_dir = work_dir })

  -- A failed copy is an error whether or not the half-written file could be removed; only the text
  -- differs.
  abbrev copied : String → Result Error (Unit {0}) → Exec Error H String
  copied dest (ok _) = pure dest
  copied dest (err e) = do removed ← attempt (os.remove dest); not_copied removed e
    where
      not_copied : Result Error (Unit {0}) → Error → Exec Error H String
      not_copied (ok _) e = fail (wrap "failed to copy rootfs" e)
      not_copied (err r) e =
          if os.is_not_exist r
          then fail (wrap "failed to copy rootfs" e)
          else fail (wrap "failed to copy rootfs (cleanup also failed)" e)

  module _ (r : RootfsManager) where
    abbrev pub sandbox_rootfs : String → String
    sandbox_rootfs id = join_path r.work_dir (concat id ".ext4")

    unfoldable pub prepare_for_sandbox : String → String → Exec Error H String
    prepare_for_sandbox id slug =
        let base = join_path r.base_dir (concat slug ".ext4") in
        let dest = sandbox_rootfs id in
        do
          or_wrap "no base rootfs found for template" (os.stat base)
          or_wrap "failed to open base rootfs" (os.open_file base)
          or_wrap "failed to create sandbox rootfs" (os.create dest)
          done ← attempt (os.copy dest base)
          copied dest done

    unfoldable pub cleanup : String → Exec Error H (Unit {0})
    cleanup id = do done ← attempt (os.remove (sandbox_rootfs id)); gone done
      where
        gone : Result Error (Unit {0}) → Exec Error H (Unit {0})
        gone (ok _) = pure tt
        gone (err e) =
            if os.is_not_exist e then pure tt else fail (wrap "failed to remove sandbox rootfs" e)
