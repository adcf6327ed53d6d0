-- ===== src/Service.antt =====
-- src/service.rs: the modes of a service, the names and descriptors that are made from them, and the
-- test that a service accepts connections. The children hold the update of its protected binary.
pub mod Disk
pub mod Binary
pub mod Rules
pub mod Rollback
pub mod Publishing
pub mod Atomic
pub mod Install
pub mod Directory
pub mod Reachable
pub mod Installation
pub mod Uninstall
pub mod Removal
pub mod Modes
use wakezilla.Prelude.{
  ltb, if◌then◌else◌, filter, str_eq, ◌^^◌, codes, trim, is_lowercase_of, Result, ok, err, ℕ, zero,
  suc, ◌+◌, String, Bool, true, false, ◌||◌, Option, none, some, List, [], ◌∷◌,
}

pub data Mode : Type 0 where
  proxy client : Mode

-- Mode::from_str_opt
unfoldable pub from_str_opt : String → Option Mode
from_str_opt s =
    let text = trim (codes s) in
    if is_lowercase_of text "proxy" || is_lowercase_of text "proxy-server"
    then some proxy
    else if is_lowercase_of text "client" || is_lowercase_of text "client-server"
    then some client
    else none

unfoldable pub subcommand : Mode → String
subcommand proxy = "proxy-server"
subcommand client = "client-server"

unfoldable pub service_name : Mode → String
service_name proxy = "wakezilla-proxy"
service_name client = "wakezilla-client"

unfoldable pub service_display_name : Mode → String
service_display_name proxy = "Wakezilla Proxy"
service_display_name client = "Wakezilla Client"

unfoldable pub service_arg : Mode → String
service_arg proxy = "proxy"
service_arg client = "client"

unfoldable pub launchd_label : Mode → String
launchd_label proxy = "dev.wakezilla.proxy"
launchd_label client = "dev.wakezilla.client"

unfoldable pub default_port : Mode → ℕ
default_port proxy = 3000
default_port client = 3001

-- The derived equality of modes.
unfoldable pub mode_eq : Mode → Mode → Bool
mode_eq proxy proxy = true
mode_eq client client = true
mode_eq proxy client = false
mode_eq client proxy = false

-- Path::join of the fixed directory and the mode's name.
unfoldable pub linux_service_binary_path : Mode → String
unfolding service_name
linux_service_binary_path mode = "/usr/local/libexec/wakezilla/" ^^ service_name mode

unfoldable pub macos_service_binary_path : Mode → String
unfolding launchd_label
macos_service_binary_path mode = "/Library/PrivilegedHelperTools/" ^^ launchd_label mode

unfoldable pub service_program_args : Mode → String × String
unfolding subcommand
service_program_args mode = ("--no-update-check", subcommand mode)

unfoldable pub windows_service_program_args : Mode → String × String × String
unfolding service_arg
windows_service_program_args mode = ("--no-update-check", "windows-service", service_arg mode)

unfoldable pub firewall_rule_name : Mode → String
firewall_rule_name proxy = "Wakezilla Proxy Server"
firewall_rule_name client = "Wakezilla Client Server"

unfoldable pub service_log_file_name : Mode → String
unfolding service_name
service_log_file_name mode = service_name mode ^^ ".log"

unfoldable pub generate_systemd_unit : Mode → String
unfolding subcommand linux_service_binary_path service_program_args
generate_systemd_unit mode =
    let (no_update_check, sub) = service_program_args mode in
    "[Unit]\nDescription=Wakezilla "
    ^^ subcommand mode
    ^^ "\nAfter=network-online.target\nWants=network-online.target\n\n"
    ^^ "[Service]\nType=simple\nExecStart="
    ^^ linux_service_binary_path mode
    ^^ " "
    ^^ no_update_check
    ^^ " "
    ^^ sub
    ^^ "\nRestart=on-failure\nRestartSec=5\n\n[Install]\nWantedBy=multi-user.target\n"

unfoldable pub systemd_unit_uses_protected_binary : Mode → String → Bool
unfolding generate_systemd_unit
systemd_unit_uses_protected_binary mode unit = str_eq unit (generate_systemd_unit mode)

abbrev pub macos_log_dir : String
macos_log_dir = "/Library/Logs/wakezilla"

unfoldable pub macos_stdout_log : Mode → String
unfolding launchd_label
macos_stdout_log mode = macos_log_dir ^^ "/" ^^ launchd_label mode ^^ ".out.log"

unfoldable pub macos_stderr_log : Mode → String
unfolding launchd_label
macos_stderr_log mode = macos_log_dir ^^ "/" ^^ launchd_label mode ^^ ".err.log"

unfoldable pub generate_launchd_plist : Mode → String
unfolding launchd_label macos_service_binary_path service_program_args macos_stdout_log
    macos_stderr_log
generate_launchd_plist mode =
    let (no_update_check, sub) = service_program_args mode in
    "<?xml version=\"1.0\" encoding=\"UTF-8\"?>\n"
    ^^ "<!DOCTYPE plist PUBLIC \"-//Apple//DTD PLIST 1.0//EN\" "
    ^^ "\"http://www.apple.com/DTDs/PropertyList-1.0.dtd\">\n"
    ^^ "<plist version=\"1.0\">\n<dict>\n\t<key>Label</key>\n\t<string>"
    ^^ launchd_label mode
    ^^ "</string>\n\t<key>ProgramArguments</key>\n\t<array>\n\t\t<string>"
    ^^ macos_service_binary_path mode
    ^^ "</string>\n\t\t<string>"
    ^^ no_update_check
    ^^ "</string>\n\t\t<string>"
    ^^ sub
    ^^ "</string>\n\t</array>\n\t<key>RunAtLoad</key>\n\t<true/>\n\t<key>KeepAlive</key>\n\t<true/>\n"
    ^^ "\t<key>StandardOutPath</key>\n\t<string>"
    ^^ macos_stdout_log mode
    ^^ "</string>\n\t<key>StandardErrorPath</key>\n\t<string>"
    ^^ macos_stderr_log mode
    ^^ "</string>\n</dict>\n</plist>\n"

unfoldable pub launchd_plist_uses_protected_binary : Mode → String → Bool
unfolding generate_launchd_plist
launchd_plist_uses_protected_binary mode plist = str_eq plist (generate_launchd_plist mode)

-- Why a service is not taken to be reachable.
pub data ValidateError : Type 0 where
  did_not_accept not_reachable : ValidateError

-- The attempts from `attempt` on, with the number that is left, and the milliseconds slept.
unfoldable pub validate_loop :
    (connect : ℕ → Bool) (attempts left attempt : ℕ) → Result (Unit {0}) ValidateError × ℕ
validate_loop connect attempts zero attempt = (err not_reachable, 0)
validate_loop connect attempts (suc left) attempt =
    let rest = validate_loop connect attempts left (attempt + 1) in
    if connect attempt
    then (ok tt, 0)
    else if ltb attempt attempts
    then (rest.0, 500 + rest.1)
    else (err did_not_accept, 0)

-- service::validate. `connect n` tells whether the n-th attempt reaches the port in a second.
unfoldable pub validate : (connect : ℕ → Bool) (attempts : ℕ) → Result (Unit {0}) ValidateError × ℕ
unfolding validate_loop
validate connect attempts = validate_loop connect attempts attempts 1

abbrev pub managed_modes : List Mode
managed_modes = proxy ∷ client ∷ []

-- service::installed_modes, where `is_installed` asks the service manager.
unfoldable pub installed_modes : (is_installed : Mode → Bool) → List Mode
installed_modes is_installed = filter is_installed managed_modes
