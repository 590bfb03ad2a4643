-- ===== src/Agent/Commands/Configure/Laws.antt =====
-- What `configure_server` of desktop/src-tauri/src/commands.rs leaves when it has succeeded.
use tunnelbridge.Prelude.{
  ◌≡◌, refl, ap, false, Option, some, [], ◌∷◌, ◌++◌, arith, length, length-append, ◌==◌, list_beq,
  inl, inr, ==_refl,
}
use tunnelbridge.Prelude.Text.{Text, text_eq, codes, trim}
use tunnelbridge.Prelude.Map.{Map, get, insert, get-insert}
use tunnelbridge.Prelude.Result.{ok, Result-cases}
use tunnelbridge.Net.{IpAddr}
use tunnelbridge.Protocol.{Uuid, DateTime}
use tunnelbridge.Agent.Runtime.{AgentConfig, log, log_with_location}
use tunnelbridge.Agent.Config.{
  UrlCrate, UrlError, App, normalize_server_url, set_password, save_config, save_token, load_token,
  token_entry, save_transport_fingerprint, load_transport_fingerprint, fingerprint_entry,
  save_transport_certificate, load_transport_certificate, certificate_entry,
}
use tunnelbridge.Agent.Commands.{
  AgentEnrollment, Http, get_enrollment, as_enrollment, request, log_info, credentials,
}
use tunnelbridge.Agent.Commands.Configure.{
  shown, Input, checked_input, installation_of, new_config, keep_enrollment, configure_server,
  set_config, restart_agent,
}

-- Names with different endings are different, and so are a name and a longer one.
longer : (s t : Text) → ¬ (length t ≡ 0) → (s ++ t == s) ≡ false
longer s t h =
    ground (arith, text_eq.beq_iff (s ++ t) s, ap (λ (u : Text). length u), length-append s t)

other_ending : (s t u : Text) → (t == u) ≡ false → (s ++ t == s ++ u) ≡ false
unfolding list_beq
other_ending [] t u h = h
other_ending (c ∷ s) t u h = ground (arith, other_ending s t u h)

module _ (uuid_text : Uuid → Text) (id : Uuid) where
  fingerprint-token : (fingerprint_entry uuid_text id == token_entry uuid_text id) ≡ false
  unfolding fingerprint_entry token_entry
  fingerprint-token = longer (uuid_text id) (codes ":transport-fingerprint") (omega arith)

  certificate-token : (certificate_entry uuid_text id == token_entry uuid_text id) ≡ false
  unfolding certificate_entry token_entry
  certificate-token = longer (uuid_text id) (codes ":transport-certificate") (omega arith)

  certificate-fingerprint :
      (certificate_entry uuid_text id == fingerprint_entry uuid_text id) ≡ false
  unfolding certificate_entry fingerprint_entry list_beq
  certificate-fingerprint = other_ending (uuid_text id) _ _ (unfold list_beq in refl)

  saved_token :
      (m : Map Text Text) (a b c : Text)
      → get
          (insert
            (insert (insert m (token_entry uuid_text id) a) (fingerprint_entry uuid_text id) b)
            (certificate_entry uuid_text id)
            c)
          (token_entry uuid_text id)
        ≡ some a
  saved_token m a b c =
      simp (get-insert, certificate-token, fingerprint-token, ==_refl (token_entry uuid_text id))

  saved_fingerprint :
      (m : Map Text Text) (a b c : Text)
      → get
          (insert
            (insert (insert m (token_entry uuid_text id) a) (fingerprint_entry uuid_text id) b)
            (certificate_entry uuid_text id)
            c)
          (fingerprint_entry uuid_text id)
        ≡ some b
  saved_fingerprint m a b c =
      simp (get-insert, certificate-fingerprint, ==_refl (fingerprint_entry uuid_text id))

  saved_certificate :
      (m : Map Text Text) (a b c : Text)
      → get
          (insert
            (insert (insert m (token_entry uuid_text id) a) (fingerprint_entry uuid_text id) b)
            (certificate_entry uuid_text id)
            c)
          (certificate_entry uuid_text id)
        ≡ some c
  saved_certificate m a b c = simp (get-insert, ==_refl (certificate_entry uuid_text id))

module _ {W : Type 0} (http : Http W) (uuid_text : Uuid → Text) (no_entry : Text) where
  -- The state has this configuration, in memory and in its file, with its token and with what the server
  -- gave at the enrollment.
  pub record IsEnrolled (app : App) (config : AgentConfig) (token : Text) (e : AgentEnrollment)
      : Type 0 where
    pub access : credentials http uuid_text no_entry app ≡ ok (config, token)
    pub fingerprint :
        load_transport_fingerprint uuid_text app config.installation_id
        ≡ some e.transport_fingerprint
    pub certificate :
        load_transport_certificate uuid_text app config.installation_id
        ≡ some e.transport_certificate_der
    pub on_disk : app.config_file ≡ some config
    pub tunnels : app.runtime.tunnels ≡ e.tunnels
    pub ports : (config.quic_port ≡ e.quic_port) × (config.kcp_port ≡ e.kcp_port)

  keep_enrollment-IsEnrolled :
      (app : App) (now : DateTime) (new_id : Uuid) (input : Input) (e : AgentEnrollment)
      → IsEnrolled
          (keep_enrollment uuid_text app now (new_config app new_id input e) input.token e)
          (new_config app new_id input e)
          input.token
          e
  unfolding keep_enrollment credentials load_token save_token save_transport_fingerprint
      save_transport_certificate load_transport_fingerprint load_transport_certificate set_password
      save_config set_config restart_agent log_info log log_with_location new_config
  keep_enrollment-IsEnrolled app now new_id input e =
      let id = installation_of app.runtime.config new_id in
      record {
        access =
            rw
              (saved_token uuid_text id app.keychain input.token e.transport_fingerprint
                e.transport_certificate_der)
              refl;
        fingerprint =
            saved_fingerprint uuid_text id app.keychain input.token e.transport_fingerprint
              e.transport_certificate_der;
        certificate =
            saved_certificate uuid_text id app.keychain input.token e.transport_fingerprint
              e.transport_certificate_der;
        on_disk = refl;
        tunnels = refl;
        ports = (refl, refl);
      }

  module _ (crate : UrlCrate) (parse_ip : Text → Option IpAddr) (url_text : UrlError → Text)
      (server_url token device_name : Text) where
    checked_input_ok :
        (input : Input)
        → checked_input crate parse_ip url_text server_url token device_name ≡ ok input
        → (normalize_server_url crate parse_ip server_url ≡ ok input.server_url)
          × (input.token ≡ trim token)
          × (input.name ≡ trim device_name)
    unfolding checked_input shown
    checked_input_ok input h =
        elim (Result-cases (normalize_server_url crate parse_ip server_url)) [
          | inr (x, failed) ↦ absurd (ground (arith, failed))
          | inl (url, valid) ↦ (ground (arith, valid), ground (arith, valid), ground (arith, valid))
        ]

    -- When `configure_server` has succeeded, the address was accepted, the server has answered the
    -- request for an enrollment with the trimmed token, and the state has the new configuration, in
    -- memory and in its file, with this token and with the server's certificate, fingerprint, ports and
    -- tunnels. The installation keeps the identifier that it had, or has the new one.
    pub configure_server_lem :
        (app : App) (w : W) (now : DateTime) (new_id : Uuid)
        → (configure_server uuid_text http crate parse_ip url_text app w now new_id server_url token
            device_name).0
          ≡ ok tt
        → (config : AgentConfig) × (e : AgentEnrollment) × (normalize_server_url crate parse_ip
              server_url
            ≡ ok config.server_url)
          × ((request http as_enrollment w config.server_url (trim token) get_enrollment).0 ≡ ok e)
          × (config.installation_id ≡ installation_of app.runtime.config new_id)
          × (config.device_name ≡ trim device_name)
          × IsEnrolled
              (configure_server uuid_text http crate parse_ip url_text app w now new_id server_url
                token device_name).1
              config
              (trim token)
              e
    unfolding configure_server
    configure_server_lem app w now new_id h =
        elim (Result-cases (checked_input crate parse_ip url_text server_url token device_name)) [
          | inr (x, failed) ↦ absurd (ground (arith, failed))
          | inl (input, checked) ↦
              let (url, same, name) = checked_input_ok input checked in
              elim (Result-cases
                (request http as_enrollment w input.server_url input.token get_enrollment).0) [
                  | inr (x, failed) ↦ absurd (ground (arith, checked, failed))
                  | inl (e, answered) ↦ (
                    new_config app new_id input e,
                    e,
                    unfold new_config in url,
                    unfold new_config in rw same at answered,
                    unfold new_config in refl,
                    unfold new_config in name,
                    rw (configure_server, checked, answered, ← same)
                        (keep_enrollment-IsEnrolled app now new_id input e),
                  )
                ]
        ]
