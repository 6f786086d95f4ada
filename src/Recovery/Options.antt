-- ===== src/Recovery/Options.antt =====
-- recoverymgr.h, `SetListenerConfiguration`: the options of a socket, which nothing calls.
use real_time_cr.Prelude.{◌==◌, if◌then◌else◌, ℕ, ◌≡◌, refl, List, [], ◌∷◌}
use real_time_cr.Calls.{Call, Trace, Os, recorded, system_call_error}
use real_time_cr.Calls.Call.{setsockopt, ioctl_fionbio}
use real_time_cr.Calls.SocketOption.{so_linger, so_reuseaddr, so_sndbuf, so_rcvbuf, tcp_nodelay}

unfoldable pub set_listener_configuration : Os → ℕ → Trace → ℕ × Trace
set_listener_configuration os fd t =
    let t1 = recorded os (setsockopt fd so_linger) t in
    let t2 = recorded os (setsockopt fd so_reuseaddr) t1 in
    let t3 = recorded os (setsockopt fd so_sndbuf) t2 in
    let t4 = recorded os (setsockopt fd so_rcvbuf) t3 in
    let t5 = recorded os (ioctl_fionbio fd) t4 in
    let t6 = recorded os (setsockopt fd tcp_nodelay) t5 in
    if os t (setsockopt fd so_linger) == system_call_error
    then (system_call_error, t1)
    else if os t1 (setsockopt fd so_reuseaddr) == system_call_error
    then (system_call_error, t2)
    else if os t2 (setsockopt fd so_sndbuf) == system_call_error
    then (system_call_error, t3)
    else if os t3 (setsockopt fd so_rcvbuf) == system_call_error
    then (system_call_error, t4)
    else if os t4 (ioctl_fionbio fd) == system_call_error
    then (system_call_error, t5)
    else if os t5 (setsockopt fd tcp_nodelay) == system_call_error
    then (system_call_error, t6)
    else (0, t6)

-- The calls in order, up to the first that fails.
abbrev pub try_all : Os → List Call → Trace → ℕ × Trace
try_all os [] t = (0, t)
try_all os (c ∷ cs) t =
    let rest = try_all os cs (recorded os c t) in
    if os t c == system_call_error then (system_call_error, recorded os c t) else rest

abbrev pub wanted : ℕ → List Call
wanted fd =
    setsockopt fd so_linger
    ∷ setsockopt fd so_reuseaddr
    ∷ setsockopt fd so_sndbuf
    ∷ setsockopt fd so_rcvbuf
    ∷ ioctl_fionbio fd
    ∷ setsockopt fd tcp_nodelay
    ∷ []

-- `SetListenerConfiguration` makes its six calls in order up to the first that fails, and returns -1 if one does.
pub set_listener_configuration-eq :
    (os : Os) (fd : ℕ) (t : Trace) → set_listener_configuration os fd t ≡ try_all os (wanted fd) t
unfolding set_listener_configuration
set_listener_configuration-eq os fd t = refl
