-- ===== src/System/Safety.antt =====
-- What no interleaving of the server's work leads to: a message that reaches an agent.
use jrok_rs.Base.{ℕ, ◌≡◌, refl, sym, ap, ◌∙◌, Option, String}
use jrok_rs.Base.Map.{StrMap, get}
use jrok_rs.Agent.{
  AgentRegistry, AgentState, HttpResponse, new_registry, send_message, get_by_subdomain,
}
use jrok_rs.Agent.Connection.Holds.{on_text-Holds}
use jrok_rs.Error.{Error, Result, err}
use jrok_rs.Net.{SocketAddr}
use jrok_rs.Proto.{Message}
use jrok_rs.Tcp.{
  Facilitator, request_connection, connection_failed, agent_listening, client_connected,
  get_session,
}
use jrok_rs.Tcp
use jrok_rs.Tcp.Http.{
  AgentListeningRequest, handle_tcp_connection_request, handle_agent_listening,
  report_connection_failure, get_session_status,
}
use jrok_rs.Tunnel.{Request, proxy_http}
use mathlib.Core.Path.{subst}
use jrok_rs.System.Deaf.{
  AllDropped, insert-AllDropped, cleanup_stale-AllDropped, send_message-AllDropped,
  proxy_http-AllDropped, IsRefusal,
}
use jrok_rs.System.{
  Libraries, System, Step, reads, proxies, dials, listens, fails_over, cleans_agents, connect_info,
  init, Reach, start, later,
}

-- What holds of the agents and of the facilitator in every state.
abbrev Inv : StrMap AgentState → Facilitator → Type 0
Inv agents f = AllDropped agents × (f ≡ Tcp.new)

-- An operation that leaves a new facilitator as it is.
stays_new :
    (operation : Facilitator → Facilitator) {f : Facilitator}
    → operation Tcp.new ≡ Tcp.new
    → f ≡ Tcp.new
    → operation f ≡ Tcp.new
stays_new operation kept same = ap operation same ∙ kept

module _ (libs : Libraries) where
  Step-Inv :
      {s t : System}
      → Step libs s t
      → Inv s.server.registry.agents s.server.facilitator
      → Inv t.server.registry.agents t.server.facilitator
  unfolding Tcp.new get agent_listening client_connected connection_failed handle_agent_listening
      report_connection_failure handle_tcp_connection_request
  Step-Inv {s} (reads n text) inv =
      on_text-Holds Inv
        (λ agent_id channel now_ms subdomain local_port local_host protocol agents f given.
          (insert-AllDropped agent_id _ agents refl given.0, given.1))
        (λ session_id endpoint agent_nat agents f given. (
          given.0,
          stays_new (λ f'. (agent_listening session_id endpoint agent_nat f').0) refl given.1,
        ))
        (λ session_id agents f given.
          (given.0, stays_new (λ f'. (client_connected session_id f').0) refl given.1))
        libs.base64 text (s.connections n) s.server inv
  Step-Inv {s} (proxies remote request_id channel meanwhile request) (dropped, same_f) =
      let (same, refused) =
        proxy_http-AllDropped libs.http libs.channels remote request_id channel meanwhile request
          s.server.registry dropped in
      (subst AllDropped (sym same) dropped, same_f)
  Step-Inv {s} (dials session_id now_ms subdomain peer) (dropped, same_f) = (dropped, same_f)
  Step-Inv {s} (listens request) (dropped, same_f) =
      (dropped, stays_new (λ f. (handle_agent_listening request f).0) refl same_f)
  Step-Inv {s} (fails_over session_id) (dropped, same_f) =
      (dropped, stays_new (λ f. (report_connection_failure session_id f).0) refl same_f)
  Step-Inv {s} (cleans_agents answers final now_ms timeout_ms) (dropped, same_f) =
      (cleanup_stale-AllDropped answers final now_ms timeout_ms s.server.registry dropped, same_f)

  module _ (server_id : String) where
    Reach-Inv :
        {s : System} → Reach libs server_id s → Inv s.server.registry.agents s.server.facilitator
    unfolding init new_registry get
    Reach-Inv start = ((λ id agent found. cc), refl)
    Reach-Inv (later reached step) = Step-Inv step (Reach-Inv reached)

    -- Whatever the server has done since its start, in any interleaving of its connections, its
    -- handlers and its cleanup: no message can be sent to any agent, over any channels of which one
    -- without a receiver refuses.
    pub send_message-Reach :
        (s : System) (agent_id : String) (message : Message)
        → Reach libs server_id s
        → (e : Error) × (send_message libs.channels s.server.registry agent_id message ≡ err e)
    send_message-Reach s agent_id message reached =
        send_message-AllDropped libs.channels s.server.registry agent_id message
          (Reach-Inv reached).0

    -- In every state that the server reaches, a proxied request leaves the agents as they are. If an
    -- agent on this server has its subdomain, then it is answered with the status 502, and otherwise
    -- with 307, 404 or 500.
    pub proxy_http-Reach :
        (s : System) (remote : Result (Option String)) (request_id : String) (channel : ℕ)
        (meanwhile : AgentRegistry → AgentRegistry × Option HttpResponse) (request : Request)
        → Reach libs server_id s
        → let (after, reply) =
            proxy_http libs.http libs.channels remote request_id channel meanwhile request
              s.server.registry in
          (after.agents ≡ s.server.registry.agents)
          × IsRefusal (get_by_subdomain s.server.registry request.subdomain) reply.status
    proxy_http-Reach s remote request_id channel meanwhile request reached =
        proxy_http-AllDropped libs.http libs.channels remote request_id channel meanwhile request
          s.server.registry (Reach-Inv reached).0

    -- In every state that the server reaches, its facilitator is the one of its start: no session is
    -- ever stored, no relay opened and nothing counted. So a request for a TCP connection is answered
    -- with the status 500, and a poll, the report of an agent that listens and the report of a
    -- failure are answered with 404, whatever their session.
    pub facilitator-Reach :
        (s : System) (session_id : String) (now_ms : ℕ) (subdomain : String) (peer : SocketAddr)
        (request : AgentListeningRequest)
        → Reach libs server_id s
        → let f = s.server.facilitator in
          (f ≡ Tcp.new)
          × ((handle_tcp_connection_request libs.addresses libs.channels s.server.registry
                libs.missing_info session_id now_ms subdomain
                (connect_info peer)
                f).1.code
              ≡ 500)
          × ((get_session_status session_id f).code ≡ 404)
          × ((handle_agent_listening request f).1.code ≡ 404)
          × ((report_connection_failure session_id f).1.code ≡ 404)
    unfolding Tcp.new get agent_listening connection_failed handle_agent_listening get_session
        report_connection_failure handle_tcp_connection_request get_session_status
    facilitator-Reach s session_id now_ms subdomain peer request reached =
        let same = (Reach-Inv reached).1 in
        (
          same,
          refl,
          ap (λ f. (get_session_status session_id f).code) same,
          ap (λ f. (handle_agent_listening request f).1.code) same,
          ap (λ f. (report_connection_failure session_id f).1.code) same,
        )
