-- ===== src/Luks/Session.antt =====
-- What a mount leaves for the rest of the process, and what takes it back.
use phantasm.Base.{eq_refl, ◌≡◌, String, true, false, none, some, arith}
use phantasm.Base.Except.{ok}
use phantasm.Luks.{
  LuksConfig, Luks, Host, is_available, mount, unmount, restricted_clear, destroy,
  generate_and_store,
}

-- A mount that succeeds points the state directory to the mount point, and one that does not leaves it
-- as it was; an unmount that succeeds after one that succeeded takes the state directory away again.
pub mount_state_dir :
    (host later : Host) (cfg : LuksConfig) (passphrase : String) (s : Luks)
    → let (r, after) = mount host cfg passphrase s in
      (r.success ≡ true
        → (after.state_dir ≡ some cfg.mount_point)
          × ((unmount later cfg after).0 ≡ ok true → (unmount later cfg after).1.state_dir ≡ none))
      × (r.success ≡ false → after.state_dir ≡ s.state_dir)
unfolding mount unmount is_available generate_and_store
mount_state_dir host later cfg passphrase s = ground (arith, eq_refl cfg.mount_point)

-- When a restricted clear says that it succeeded, the key file is gone and the wrapper has returned 0;
-- the state directory is as before.
pub restricted_clear_key :
    (host : Host) (s : Luks)
    → ((restricted_clear host s).0 ≡ ok true
        → ((restricted_clear host s).1.key ≡ none) × (host.wrapper_code ≡ some 0))
      × ((restricted_clear host s).1.state_dir ≡ s.state_dir)
unfolding restricted_clear destroy
restricted_clear_key host s = ground arith
