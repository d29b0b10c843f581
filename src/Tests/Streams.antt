-- ===== src/Tests/Streams.antt =====
-- The streams of the gateway in the worlds of the completions.
use llmops_gateway.Prelude.{none}
use llmops_gateway.Domain.Chat.{miss}
use llmops_gateway.Errors.{ok}
use llmops_gateway.Routing
use llmops_gateway.Gateway.Streams.{StreamTools, handle_chat_completion_stream}
use llmops_gateway.Gateway.Streams.Delivery.{Delivered, stream-Delivered}
use llmops_gateway.Tests.Providers.{hello, greeting}
use llmops_gateway.Tests.Gateways.{
  Desk, quiet, layers, services, upstream, first_call, missed, hello_routed, hello-missed,
}

abbrev tools : StreamTools Desk
tools = record { uuid = λ w. ("u", w); join_chunks = λ chunks. "text"; created_at = λ w. w.clock }

stream-Delivered_example :
    Delivered services tools miss
      (Routing.stream
        (upstream (ok greeting)).runtime
        (upstream (ok greeting)).settings
        (upstream (ok greeting)).providers
        hello_routed
        missed).0
      (handle_chat_completion_stream services tools
        (layers none)
        (upstream (ok greeting))
        first_call
        hello
        quiet).0
stream-Delivered_example =
    stream-Delivered services tools (layers none) (upstream (ok greeting)) first_call hello quiet
      missed miss hello-missed
