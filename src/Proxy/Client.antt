-- ===== src/Proxy/Client.antt =====
-- The client that NewProxyClientFromConfig of proxy/proxy.go makes for a configuration.
use faas_provider.Prelude.{ℕ, ◌*◌, ◌^◌, ◌≡◌, ℤ, pos, leb_ℤ, Bool, true, false}
use faas_provider.Config.{
  FaasConfig, second, get_read_timeout, get_max_idle_conns, get_max_idle_conns_per_host,
}
use faas_provider.Config.Reading.{getters-HasLimits}

abbrev millisecond : ℕ
millisecond = 10 ^ 6

-- The fields of the client, of its transport and of its dialer that the code sets. The proxy comes
-- from the environment, and `follows_redirects` is what `CheckRedirect` comes to.
pub record ProxyClient : Type 0 where
  pub timeout : ℤ
  pub dial_timeout : ℤ
  pub keep_alive : ℤ
  pub dual_stack : Bool
  pub max_idle_conns : ℤ
  pub max_idle_conns_per_host : ℤ
  pub idle_conn_timeout : ℤ
  pub tls_handshake_timeout : ℤ
  pub expect_continue_timeout : ℤ
  pub follows_redirects : Bool

unfoldable pub new_proxy_client : ℤ → ℤ → ℤ → ProxyClient
new_proxy_client timeout max_idle_conns max_idle_conns_per_host = record {
  timeout = timeout;
  dial_timeout = timeout;
  keep_alive = pos second;
  dual_stack = true;
  max_idle_conns = max_idle_conns;
  max_idle_conns_per_host = max_idle_conns_per_host;
  idle_conn_timeout = pos (120 * millisecond);
  tls_handshake_timeout = pos (10 * second);
  expect_continue_timeout = pos (1500 * millisecond);
  follows_redirects = false;
}

unfoldable pub new_proxy_client_from_config : {F : Type 0} → FaasConfig F → ProxyClient
unfolding new_proxy_client
new_proxy_client_from_config c =
    new_proxy_client (get_read_timeout c) (get_max_idle_conns c) (get_max_idle_conns_per_host c)

-- A request and its dialling end, as a timeout of 0 would not make them, and a connection to a host
-- may be kept.
pub record IsLimited (client : ProxyClient) : Type 0 where
  pub timeout : leb_ℤ (pos 1) client.timeout ≡ true
  pub dial_timeout : leb_ℤ (pos 1) client.dial_timeout ≡ true
  pub conns : leb_ℤ (pos 1) client.max_idle_conns ≡ true
  pub per_host : leb_ℤ (pos 1) client.max_idle_conns_per_host ≡ true

-- Whatever a configuration holds, 0 and negative numbers included, the client that is made for it
-- has timeouts above zero for its requests and its dialling, and may keep at least one idle
-- connection, also to one host.
pub new_proxy_client_from_config-IsLimited :
    {F : Type 0} (c : FaasConfig F) → IsLimited (new_proxy_client_from_config c)
unfolding new_proxy_client_from_config
new_proxy_client_from_config-IsLimited c =
    let limits = getters-HasLimits c in
    record {
      timeout = limits.timeout;
      dial_timeout = limits.timeout;
      conns = limits.conns;
      per_host = limits.per_host;
    }
