-- ===== src/WorkspaceEdit/Sequence.antt =====
-- Changes applied one after the other: what a failure leaves, and what all of them keep.
use lsp_client.Base.Dict.{Dict}
use lsp_client.Host.{Host}
use lsp_client.WorkspaceEdit.{WorkspaceEdit}
