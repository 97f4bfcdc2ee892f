-- ===== src/Tests/Requests.antt =====
-- A request on a new client session (src/session.cpp).
use nghttp2_corosio.Base.{refl, Bool, some, [], codes}
use nghttp2_corosio.Session.{Session, client, new_session, lookup}
use nghttp2_corosio.Session.Submit.{assigned, submit_request_for}
use nghttp2_corosio.Session.Submit.Outcome.{IsNew, RequestOutcome, submit_request_for_lem}
use nghttp2_corosio.Tests.{flags}

abbrev fresh_client : Session Bool
fresh_client = new_session client []

first-IsNew : IsNew (codes "/echo") (some 5) [] fresh_client (assigned 1)
unfolding new_session lookup
first-IsNew = refl

submit_request_for_lem_example :
    RequestOutcome
      (codes "/echo")
      (some 5)
      []
      fresh_client
      fresh_client.role
      (assigned 1)
      (submit_request_for (assigned 1) (codes "/echo") (some 5) [] fresh_client)
submit_request_for_lem_example =
    submit_request_for_lem (codes "/echo") (some 5) [] fresh_client (assigned 1) first-IsNew
