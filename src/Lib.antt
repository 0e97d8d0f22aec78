-- ===== src/Lib.antt =====
-- tswipoexp: a portable Windows Tailscale client, a tsnet node with a GUI that keeps its state
-- next to the binary and registers itself as the user's proxy.
--
-- The modules follow the Go files of the repository's root.
-- - Prelude: Go strings as lists of bytes, with the functions of package strings that are called,
--   Boolean tests, lists. ToLower and ToUpper work on ASCII letters only.
-- - Codec: an encoding for the runs in the test modules.
-- - Program: programs of calls to the operating system that may fail, with the states in between,
--   for crashes. Which calls fail is a list in the state, so a theorem about all states is one
--   about all failures.
-- - Disk: the state directory and the calls of package os on it; writeFileAtomic (profiles.go).
--   It has two levels, and its names are compared byte by byte.
-- - Profiles: Names (validProfileName, Dir), Config (Config, its defaults, its JSON fields), Store
--   (List, Create, Active, SetActive, Rename, Delete, LoadConfig, SaveConfig) and Summary
--   (LoadSummary, SaveSummary) of profiles.go.
--   The text that encoding/json puts around the fields is a parameter, JsonText.
-- - Logs: Sink is logsink.go. A call of the sink holds its lock as a whole.
--   Viewer is the log viewer of ui_logs.go and the mouse of a row of ui_logrow.go, with everything
--   that may happen to the sink and the viewer as a list of events.
-- - Proxy: the registration with the Windows session. Settings has the types and constants of
--   winproxy.go; Session its saved settings and the calls of winproxy_windows.go on the session;
--   Restore the .reg and .cmd texts of winproxy_restore.go; Registration registerSystemProxy,
--   unregisterSystemProxy and the safety nets; Undo what is shown of them. A write with
--   writeFileAtomic is one call there, and the map that setUserEnv ranges over is a list in the
--   order of proxyEnvVars. The JSON of the saved settings is a parameter: a function to bytes and
--   one back that undoes it.
-- - Status: what is read of ipnstate.Status, and the profile summary made of it (backend.go).
-- - Pac: pac.go, with the functions of net/netip that it calls, of Go's standard library, in Netip.
-- - Backend: backend.go. Its programs act on a Place, that is the Windows session of Proxy, the tsnet
--   node, the listeners and the fields of the Backend; Events has refreshStatus and watchIPNBusOnce,
--   with calls that overlap, Node the LocalAPI calls, with the service that answers them as a parameter.
--   Sessions, Owning, Closing and Again are what is shown of Start, ApplyOutbound, SetSSHMode and
--   Close.
-- - App: tswipoexp.go. A World is the disk of Profiles and the Place of Backend with the App's fields;
--   each command of the window runs to its end, its goroutine included, before the next.
-- - Ssh: Server is sshServer of ssh.go with its host key; Session its sessionHandler and runWithPipes with
--   newSessionCommand and runWithPTY of ssh_windows.go; EnvBlock is acceptEnvPair (ssh.go) and envBlock
--   (ssh_windows.go); ConPty the pseudoconsole of ssh_windows.go.
-- - Ui: the main window of ui.go. Peers has the rows of the peer table and their filter, ExitNodes the
--   exit node dropdown, States the words for the node's states, Window what the widgets show and their
--   handlers, Buttons the handlers that ask the node for something, Refresh the function refresh,
--   Refreshing how scheduleRefresh brings it about; Settings the dialogs of ui_outbound.go and those for
--   the hostname and a new profile, ProfileManager the window of ui_profiles.go. A widget is what it
--   shows; whether the toolkit calls a handler when a value is set is an argument.
-- - Http: httpproxy.go, the HTTP side of the proxy, and localapi.go, the bridge for the tspo command.
-- - Debug: debug.go, the endpoint that drives the window for tests.
-- - Tspo: cmd/tspo, with the arguments that it gives the tailscale CLI.
--
-- Numbers are natural numbers; the sequence numbers of the sink, uint64, wrap at 2 ^ 64. The loops
-- recur on lists, so no fuel is used.
-- Not modelled: the drawing of the widgets of Fyne, tsnet, the Windows API itself, and the clock, which
-- are not in the repository; the size of the window and its file (guistate.go, fitToScreen), which are
-- floats and calls of the platform; goroutines of two commands at the same time; the tree of widgets and
-- the screenshot of debug.go; the programs under cmd that are for development.
mod Prelude
pub mod Codec
pub mod Program
pub mod Disk
pub mod Logs
pub mod Proxy
pub mod Ssh
pub mod Tspo
pub mod Profiles
pub mod Status
pub mod Pac
pub mod Backend
pub mod App
pub mod Ui
pub mod Debug
pub mod Http
