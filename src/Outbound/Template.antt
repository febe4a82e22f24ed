-- ===== src/Outbound/Template.antt =====
-- internal/outbound/campaign_preflight.go: `renderCampaignTemplate`, with `strings.NewReplacer`.
use Prim.Native.String.{◌++◌ as append}
use text.Mathlib.Text.{starts_with}
use vigia.Prelude.{ℕ, zero, suc, String, if◌then◌else◌}

-- At each position the first placeholder that starts there is replaced; `skip` is what is left of
-- a placeholder that has been replaced.
render_from : String → String → ℕ → String → String
render_from debtor_id recipient_ref skip String.[] = ""
render_from debtor_id recipient_ref (suc skip) (String.◌∷◌ c s) =
    render_from debtor_id recipient_ref skip s
render_from debtor_id recipient_ref zero (String.◌∷◌ c s) =
    let debtor = append debtor_id (render_from debtor_id recipient_ref 12 s) in
    let recipient = append recipient_ref (render_from debtor_id recipient_ref 16 s) in
    let plain = String.◌∷◌ c (render_from debtor_id recipient_ref 0 s) in
    if starts_with (String.◌∷◌ c s) "{{debtor_id}}"
    then debtor
    else if starts_with (String.◌∷◌ c s) "{{recipient_ref}}"
    then recipient
    else plain

-- `replacer.Replace(template)`, for the recipient's two fields
unfoldable pub render : String → String → String → String
unfolding render_from
render debtor_id recipient_ref template = render_from debtor_id recipient_ref 0 template
