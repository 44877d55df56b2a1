-- ===== src/Routing/Intent.antt =====
-- The detectors of `store/app/ai/routing.py` that look for phrases in a normalised message.
use Prim.Native.String.{String}
use social_media_manager.Prelude.{
  Bool, true, false, Option, none, some, List, [], ◌∷◌, ◌==◌, any, if◌then◌else◌, ◌≡◌, refl,
}
use social_media_manager.Prelude.Text.{contains, occurs}

-- `any(marker in message for marker in markers)`
has_marker : String → List String → Bool
unfolding occurs
has_marker message markers = any (λ m. occurs m message) markers

unfoldable pub looks_like_checkout_cancellation : String → Bool
unfolding has_marker
looks_like_checkout_cancellation message =
    has_marker message ("cancelar" ∷ "cancela" ∷ "olvida" ∷ "ya no" ∷ "no quiero" ∷ "dejalo" ∷ [])

-- `strong_markers`
abbrev strong_markers : List String
strong_markers =
    "quiero comprar" ∷ "quiero pedir" ∷ "quiero llevar" ∷ "quiero ese" ∷ "quiero esa" ∷ "lo quiero"
    ∷ "la quiero" ∷ "me llevo" ∷ "me lo llevo" ∷ "me la llevo" ∷ "lo compro" ∷ "la compro"
    ∷ "comprame" ∷ "armame el pedido" ∷ "hacer pedido" ∷ "crear pedido" ∷ "confirmo el pedido"
    ∷ "te paso mi direccion" ∷ "mi direccion es" ∷ "voy a pagar" ∷ "quiero pagar" ∷ "para pagar"
    ∷ []

unfoldable pub looks_like_purchase_intent : String → Bool
unfolding has_marker
looks_like_purchase_intent message = has_marker message strong_markers

unfoldable pub detect_support_intent : String → Option String
unfolding has_marker
detect_support_intent message =
    if message == ""
    then none
    else if has_marker message
        ("estado de mi pedido" ∷ "mi pedido" ∷ "pedido pendiente" ∷ "orden" ∷ [])
    then some "order_status"
    else if has_marker message
        ("tracking" ∷ "guia" ∷ "rastreo" ∷ "numero de guia" ∷ "donde va" ∷ "por donde va" ∷ [])
    then some "tracking_question"
    else if has_marker message
        ("no me ha llegado" ∷ "no llego" ∷ "paquete" ∷ "entrega" ∷ "retraso" ∷ [])
    then some "delivery_issue"
    else if has_marker message
        ("reembolso" ∷ "devolucion" ∷ "cambio" ∷ "garantia" ∷ "reclamo" ∷ "queja" ∷ [])
    then some "complaint_or_refund"
    else if has_marker message
        ("pago rechazado" ∷ "pago no aparece" ∷ "me cobraron" ∷ "disputa" ∷ [])
    then some "payment_dispute"
    else none

abbrev followup_markers : List String
followup_markers =
    "cuando llega" ∷ "cuando me llega" ∷ "que hago" ∷ "que puedo hacer" ∷ "y entonces"
    ∷ "todavia nada" ∷ "sigue igual" ∷ "no aparece" ∷ "no me sale" ∷ "la guia" ∷ "el tracking"
    ∷ "mi pago" ∷ "mi paquete" ∷ []

unfoldable pub looks_like_support_followup : String → Bool
unfolding has_marker detect_support_intent
looks_like_support_followup message =
    if message == "" then false else elim (detect_support_intent message) [
      | some intent ↦ true
      | none ↦ has_marker message followup_markers
    ]

unfoldable pub detect_sales_intent : String → Option String
unfolding has_marker
detect_sales_intent message =
    if message == ""
    then none
    else if contains
        ("hola" ∷ "buenas" ∷ "buenos dias" ∷ "buenas tardes" ∷ "buenas noches" ∷ "hello" ∷ "hi"
          ∷ [])
        message
    then some "greeting"
    else if has_marker message
        ("catalogo" ∷ "que tienes" ∷ "que tienen" ∷ "muestrame todo" ∷ "ver todo" ∷ [])
    then some "catalog_request"
    else if has_marker message ("foto" ∷ "imagen" ∷ "verlo" ∷ "verla" ∷ "como se ve" ∷ [])
    then some "product_photo_request"
    else if has_marker message
        ("recomienda" ∷ "recomendacion" ∷ "que me sugieres" ∷ "cual me recomiendas" ∷ [])
    then some "recommendation_request"
    else if has_marker message ("talla" ∷ "size" ∷ [])
    then some "size_question"
    else if has_marker message ("disponible" ∷ "tienes" ∷ "hay" ∷ "queda" ∷ "agotado" ∷ [])
    then some "availability_question"
    else if has_marker message
        ("precio" ∷ "cuanto" ∷ "pijama" ∷ "panty" ∷ "set" ∷ "splash" ∷ "brasier" ∷ "encaje" ∷ [])
    then some "product_search"
    else if has_marker message (
        "envio" ∷ "envios" ∷ "mrw" ∷ "zoom" ∷ "zelle" ∷ "binance" ∷ "zinli" ∷ "metodos de pago"
        ∷ "formas de pago" ∷ [])
    then some "general_product_info"
    else none

purchase_example : looks_like_purchase_intent "hola, lo quiero" ≡ true
unfolding looks_like_purchase_intent
purchase_example = refl

support_example : detect_support_intent "donde va mi pedido" ≡ some "order_status"
unfolding detect_support_intent
support_example = refl
