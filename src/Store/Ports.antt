-- ===== src/Store/Ports.antt =====
-- The ports of services, in daemon/store/services.go. A port number is a natural number: the source
-- refuses a negative one as it refuses 0.
use lightscale.Prelude.{
  ℕ, ◌+◌, String, Bool, ◌&&◌, ◌||◌, not, List, [], ◌∷◌, ◌++◌, any, ◌==◌, ltb, nat_eq, string_eq,
  if◌then◌else◌, keep,
}
use lightscale.Store.{ServicePort, Db, Error, invalid_input, Tx, pure, fail, exec, ◌>>=◌, ◌>>◌}

-- a port of a request
pub record PortInput : Type 0 where
  pub port : ℕ
  pub protocol : String

-- `ORDER BY port, protocol`, where the protocol is "tcp" or "udp"
abbrev pub precedes : ServicePort → ServicePort → Bool
precedes p q = ltb p.port q.port || ((p.port == q.port) && (p.protocol == "tcp"))

unfoldable pub insert_port : ServicePort → List ServicePort → List ServicePort
insert_port p [] = p ∷ []
insert_port p (q ∷ qs) =
    let rest = insert_port p qs in if precedes p q then p ∷ q ∷ qs else q ∷ rest

unfoldable pub order_ports : List ServicePort → List ServicePort
unfolding insert_port
order_ports [] = []
order_ports (p ∷ ps) = insert_port p (order_ports ps)

unfoldable pub load_service_ports : ℕ → Db → List ServicePort
unfolding order_ports
load_service_ports service_id db =
    order_ports (keep (λ p. p.service_id == service_id) db.service_ports)

abbrev pub bad_protocol : PortInput → Bool
bad_protocol p = not (p.protocol == "tcp") && not (p.protocol == "udp")

abbrev pub bad_port : PortInput → Bool
bad_port p = (p.port == 0) || ltb 65535 p.port

abbrev pub port_of : ℕ → PortInput → ℕ → ServicePort
port_of service_id p id = record {
  id = id;
  service_id = service_id;
  port = p.port;
  protocol = p.protocol;
}

-- `INSERT INTO service_ports`, with UNIQUE (service_id, port, protocol)
unfoldable pub insert_service_port : ℕ → PortInput → Tx ServicePort
insert_service_port service_id p db =
    let q = port_of service_id p (db.service_ports_seq + 1) in
    if any (λ r. (r.service_id == service_id) && (r.port == p.port) && (r.protocol == p.protocol))
      db.service_ports
    then fail Error.constraint db
    else pure q (record db { service_ports = db.service_ports ++ q ∷ []; service_ports_seq = q.id })

-- the checks on one port of the loop of `replaceServicePorts`
abbrev pub check_port : PortInput → Tx (Unit {0})
check_port p =
    if bad_protocol p
    then fail invalid_input
    else if bad_port p
    then fail invalid_input
    else pure tt

-- the loop of `replaceServicePorts`
unfoldable pub insert_service_ports : ℕ → List PortInput → Tx (List ServicePort)
insert_service_ports service_id [] = pure []
insert_service_ports service_id (p ∷ ps) = do
  check_port p
  q ← insert_service_port service_id p
  rest ← insert_service_ports service_id ps
  pure (q ∷ rest)

unfoldable pub replace_service_ports : ℕ → List PortInput → Tx (List ServicePort)
replace_service_ports service_id ports = do
  exec (λ db. record db {
    service_ports = keep (λ p. not (p.service_id == service_id)) db.service_ports;
  })
  insert_service_ports service_id ports
