-- ===== src/Tunnel/Setup/Subnetwork.antt =====
-- Which packets a tunnel with the default settings translates, node-net-manager/proxy/ProxySetup.go and
-- outgoingProxy of ProxyTunnel.go.
use Prim.Native.Nat.{bit_and}
use oakestra_net.Base.{
  ℕ, zero, suc, ◌<◌, ◌≡◌, ◌↔◌, refl, sym, ◌∙◌, inl, inr, Bool, true, ◌&&◌, Bool-cases, [], ◌∷◌,
  codes, returns, arith, ◌==◌, ◌=ᵇ◌,
}
use oakestra_net.Net.{addr, octets, ipv4, to4, equal, mask}
use oakestra_net.Packets.{IpLayer, ipv4_packet}
use oakestra_net.Tunnel.{IpNet, in_subnetwork, is_semantic}
use oakestra_net.Tunnel.Setup.{Platform, ProxyTunnel, default_settings, new_tunnel, set_environment}
use oakestra_net.Tunnel.Setup.Ready.{Works, new_tunnel-IsReady}

-- A test of the numbers below a bound.
checks : (ℕ → Bool) → ℕ → Bool
checks p zero = true
checks p (suc n) = let rest = checks p n in p n && rest

checks_sound : (p : ℕ → Bool) (n m : ℕ) → checks p n ≡ true → m < n → p m ≡ true
unfolding checks
checks_sound p zero m h k = absurd (omega (arith, k))
checks_sound p (suc n) m h k = elim (Bool-cases (m == n)) [
  | inl e ↦ let same : m ≡ n = ground arith in rw (same) (ground (arith, h))
  | inr e ↦ checks_sound p n m (ground (arith, h)) (ground arith)
]

bytes_low : checks (λ n. bit_and n 255 == n) 256 ≡ true
unfolding checks
bytes_low = refl

bytes_none : checks (λ n. bit_and n 0 == 0) 256 ≡ true
unfolding checks
bytes_none = refl

bit_and-low : (a : ℕ) → a < 256 → bit_and a 255 ≡ a
bit_and-low a h = ground (arith, checks_sound (λ n. bit_and n 255 == n) 256 a bytes_low h)

bit_and-none : (a : ℕ) → a < 256 → bit_and a 0 ≡ 0
bit_and-none a h = ground (arith, checks_sound (λ n. bit_and n 0 == 0) 256 a bytes_none h)

-- The subnetwork of the default settings, once its texts are read.
abbrev default_net : IpNet
default_net = record { ip = ipv4 10 30 0 0; net_mask = octets (to4 (ipv4 255 255 0 0)) }

in_default_net :
    (a b c d : ℕ)
    → a < 256
    → b < 256
    → c < 256
    → d < 256
    → in_subnetwork default_net (addr (a ∷ b ∷ c ∷ d ∷ [])) ≡ (10 == a && 30 == b)
unfolding equal mask to4 ◌=ᵇ◌
in_default_net a b c d ha hb hc hd =
    rw (bit_and-low a ha, bit_and-low b hb, bit_and-none c hc, bit_and-none d hd) (ground arith)

-- On a platform where the calls succeed that must, and which reads the texts `10.30.0.0` and
-- `255.255.0.0` as these addresses, `NewCustom` with the default settings returns a tunnel that, with
-- any environment, takes a packet of IPv4 for translation exactly if the first two bytes of its
-- destination are 10 and 30.
pub new_tunnel-is_semantic :
    {E R : Type 0} (p : Platform) (k : Works p default_settings) (source : R) (w : p.World)
    (env : E) (l : IpLayer) (a b c d : ℕ)
    → p.parse_ip (codes "10.30.0.0") ≡ ipv4 10 30 0 0
    → p.parse_ip (codes "255.255.0.0") ≡ ipv4 255 255 0 0
    → l.version ≡ 4
    → l.dst_ip ≡ addr (a ∷ b ∷ c ∷ d ∷ [])
    → a < 256
    → b < 256
    → c < 256
    → d < 256
    → (w' : p.World) × (t : ProxyTunnel E R) × (new_tunnel p source default_settings w
        ≡ returns (w', t))
      × ((is_semantic (set_environment env t) (ipv4_packet l) ≡ true) ↔ ((a ≡ 10) × (b ≡ 30)))
unfolding is_semantic
new_tunnel-is_semantic p k source w env l a b c d net_text mask_text v4 dst ha hb hc hd =
    let (w', t, made, ready) = new_tunnel-IsReady p default_settings k source w in
    let net : t.proxy.proxy_ip_subnetwork ≡ default_net =
      ready.subnet ∙ rw (net_text, mask_text) refl in
    let test : is_semantic (set_environment env t) (ipv4_packet l) ≡ (10 == a && 30 == b) =
      rw (v4, is_semantic) (rw (net, dst) (in_default_net a b c d ha hb hc hd)) in
    (w', t, made, (λ h. ground (arith, sym test ∙ h), λ (e, f). test ∙ rw (e, f) refl))
