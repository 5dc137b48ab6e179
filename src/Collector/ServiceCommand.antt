-- ===== src/Collector/ServiceCommand.antt =====
-- collector/service.go: the batch of commands for the services of a host.
use weops_inspect.Prelude.{
  Bool, ◌||◌, List, [], ◌∷◌, ◌++◌, if◌then◌else◌, ℤ, pos, eqb_ℤ, Str, codes, str_eq,
}
use weops_inspect.Prelude.Strings.{join}
use weops_inspect.Decimal.{itoa}
use weops_inspect.Collector.Registry.{SubModule}

-- Functions of the shell that ask a URL: for the HTTP code, and for the body.
abbrev pub hz_functions : List Str
hz_functions =
    codes
      "hz_http(){ c=$(curl -s --connect-timeout \"$2\" -o /dev/null -w \"%{http_code}\" \"$1\" 2>/dev/null); [ -n \"$c\" ] && [ \"$c\" != \"000\" ] && echo \"$c\"; }"
    ∷ codes
        "hz_body(){ b=$(curl -s --connect-timeout \"$2\" \"$1\" 2>/dev/null); [ -n \"$b\" ] && echo \"$b\"; }"
    ∷ []

-- echo "===KIND_name==="
unfoldable pub echo_marker : Str → Str
echo_marker tag = codes "echo \"===" ++ tag ++ codes "===\"; "

-- A function asked at the loopback address, and then at the address of the host.
unfoldable pub hz_command : Str → Str → Str → ℤ → Str → Str → Str
unfolding echo_marker itoa
hz_command function name host port path timeout =
    echo_marker (codes "HZ_" ++ name)
    ++ function
    ++ codes " http://127.0.0.1:"
    ++ itoa port
    ++ path
    ++ codes " "
    ++ timeout
    ++ codes " || "
    ++ function
    ++ codes " http://"
    ++ host
    ++ codes ":"
    ++ itoa port
    ++ path
    ++ codes " "
    ++ timeout
    ++ codes " || echo unreachable"

unfoldable pub is_http_type : Str → Bool
is_http_type type = str_eq type (codes "http_status") || str_eq type (codes "http_alive")

unfoldable pub healthz_command : Str → SubModule → Str
unfolding hz_command is_http_type echo_marker
healthz_command host sub =
    let port = if eqb_ℤ sub.healthz_port (pos 0) then sub.port else sub.healthz_port in
    if is_http_type sub.healthz_type
    then hz_command (codes "hz_http") sub.name host port sub.healthz_path (codes "2")
    else if str_eq sub.healthz_type (codes "json_ok")
    then hz_command (codes "hz_body") sub.name host port sub.healthz_path (codes "2")
    else if str_eq sub.healthz_type (codes "json_up")
    then hz_command (codes "hz_body") sub.name host port sub.healthz_path (codes "5")
    else echo_marker (codes "HZ_" ++ sub.name) ++ codes "echo \"N/A\""

-- The commands for a service: systemctl, healthz and the workers.
unfoldable pub sub_commands : Str → SubModule → List Str
unfolding healthz_command echo_marker
sub_commands host sub =
    (if sub.skip_status_check
      then []
      else (echo_marker (codes "SVC_" ++ sub.name)
          ++ codes "systemctl show "
          ++ sub.service_unit
          ++ codes
              ".service --property=ActiveState,MainPID,ExecMainStartTimestamp 2>/dev/null || echo \"ActiveState=not-found\"")
        ∷ [])
    ++ (if sub.skip_healthz_check then [] else healthz_command host sub ∷ [])
    ++ (echo_marker (codes "WK_" ++ sub.name)
        ++ codes "ps -ef | grep '"
        ++ sub.process_name
        ++ codes "' | grep -v grep | wc -l")
      ∷ []

unfoldable pub all_commands : Str → List SubModule → List Str
unfolding sub_commands
all_commands host [] = []
all_commands host (sub ∷ subs) = sub_commands host sub ++ all_commands host subs

unfoldable pub runs_docker : Str → Bool
runs_docker module_key = str_eq module_key (codes "appo") || str_eq module_key (codes "appt")

-- cmd
unfoldable pub service_command : Str → Str → List SubModule → Str
unfolding all_commands runs_docker echo_marker join
service_command module_key host subs = join (codes "; ") (
    hz_functions
    ++ all_commands host subs
    ++ (if runs_docker module_key
        then (echo_marker (codes "DOCKER")
            ++ codes
                "docker ps -a --format '{{.Status}}' 2>/dev/null || echo \"docker_unavailable\"")
          ∷ []
        else []))
