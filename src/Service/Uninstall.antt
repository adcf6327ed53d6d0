-- ===== src/Service/Uninstall.antt =====
-- src/service.rs: the removal of a service on Linux, with its protected binary.
use wakezilla.Prelude.{Bool, true, Option, none, some}
use wakezilla.Service.Disk.{
  Node, Io, ◌>>◌, pure, fail, ensure, perform, unchanged, file, directory, special,
  parent_not_directory, inspecting_directory, no_descriptor, configuring,
}
use wakezilla.Service.Install.{remove_unix_protected_binary_at}

-- The binary is looked for in a real directory only. Without the directory there is nothing to do.
unfoldable pub remove_below : Option Node → Io (Unit {0})
unfolding remove_unix_protected_binary_at
remove_below none = pure tt
remove_below (some (directory m)) = remove_unix_protected_binary_at true 0 0
remove_below (some (file f)) = fail parent_not_directory
remove_below (some special) = fail parent_not_directory

unfoldable pub remove_protected_service_binary : Io (Unit {0})
unfolding remove_below
remove_protected_service_binary = do
  perform inspecting_directory unchanged
  λ d. remove_below d.parent d

-- uninstall. The errors of stopping and disabling the service are ignored; `descriptor_removed` and
-- `daemon_reload` tell whether the descriptor is gone and the manager has read its units again.
unfoldable pub uninstall : (descriptor_removed daemon_reload : Bool) → Io (Unit {0})
unfolding remove_protected_service_binary
uninstall descriptor_removed daemon_reload = do
  ensure descriptor_removed no_descriptor
  ensure daemon_reload configuring
  remove_protected_service_binary
