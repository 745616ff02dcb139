-- ===== src/PredictTraffic/MapKey.antt =====
-- services/predicttrafficsvc/predicttrafficsvc.go: the key under which a classification is cached.
-- The text of an address is a parameter.
use Prim.Native.String.{◌++◌}
use packetd.Base.{ℕ, ◌≡◌, sym, ap, ◌∙◌, refl, String}
use packetd.Base.Text.{codes}
use packetd.Base.Decimal.{itoa, itoa-IsDigits, itoa_injective}
use packetd.Base.TextCodes.{codes-separated, codes_injective, split_last}
use packetd.Dispatch.Ip.{Ip}

module _ (ip_text : Ip → String) where
  -- `formMapKey`
  unfoldable pub form_map_key : Ip → ℕ → ℕ → String
  form_map_key ip_add port proto_id =
      ((((ip_text ip_add ++ "-") ++ itoa port) ++ "-") ++ itoa proto_id)

  -- Two requests have the same key only if they have the same port, the same protocol, and
  -- addresses of the same text, whatever characters that text has.
  pub form_map_key_injective :
      (ip ip' : Ip) (port port' proto proto' : ℕ)
      → form_map_key ip port proto ≡ form_map_key ip' port' proto'
      → (ip_text ip ≡ ip_text ip') × ((port ≡ port') × (proto ≡ proto'))
  unfolding form_map_key
  form_map_key_injective ip ip' port port' proto proto' h =
      let key = (ip_text ip ++ "-") ++ itoa port in
      let key' = (ip_text ip' ++ "-") ++ itoa port' in
      let (keys, protos) =
        split_last 45 (codes key) (codes key') (codes (itoa proto)) (codes (itoa proto')) refl
          (itoa-IsDigits proto) (itoa-IsDigits proto')
          (sym (codes-separated key (itoa proto) "-")
            ∙ ap codes h
            ∙ codes-separated key' (itoa proto') "-") in
      let (ips, ports) =
        split_last 45 (codes (ip_text ip)) (codes (ip_text ip')) (codes (itoa port))
          (codes (itoa port')) refl (itoa-IsDigits port) (itoa-IsDigits port')
          (sym (codes-separated (ip_text ip) (itoa port) "-")
            ∙ keys
            ∙ codes-separated (ip_text ip') (itoa port') "-") in
      (
        codes_injective _ _ ips,
        (
          itoa_injective port port' (codes_injective _ _ ports),
          itoa_injective proto proto' (codes_injective _ _ protos),
        ),
      )
