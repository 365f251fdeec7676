-- ===== src/Capability/Deno.antt =====
-- clients/deno/extension.py: the methods that only Deno has.
use lsp_client.Base.{false, [], ◌∷◌}
use lsp_client.Hooks.{notification_hook}
use lsp_client.Capability.{Mixin, inherits, overrides, sets, enabled, experimental}

abbrev pub with_request_deno_cache : Mixin
with_request_deno_cache = record {
  methods = "deno/cache" ∷ [];
  registration = inherits;
  required = [];
  hooks = [];
}

abbrev pub with_request_deno_performance : Mixin
with_request_deno_performance = record {
  methods = "deno/performance" ∷ [];
  registration = inherits;
  required = [];
  hooks = [];
}

abbrev pub with_request_deno_reload_import_registries : Mixin
with_request_deno_reload_import_registries = record {
  methods = "deno/reloadImportRegistries" ∷ [];
  registration = inherits;
  required = [];
  hooks = [];
}

abbrev pub with_request_deno_virtual_text_document : Mixin
with_request_deno_virtual_text_document = record {
  methods = "deno/virtualTextDocument" ∷ [];
  registration = inherits;
  required = [];
  hooks = [];
}

abbrev pub with_request_deno_task : Mixin
with_request_deno_task = record {
  methods = "deno/task" ∷ [];
  registration = inherits;
  required = [];
  hooks = [];
}

abbrev pub with_request_deno_test_run : Mixin
with_request_deno_test_run = record {
  methods = "deno/testRun" ∷ [];
  registration = overrides experimental false (sets "testingApi" enabled ∷ []);
  required = [];
  hooks = [];
}

abbrev pub with_request_deno_test_run_cancel : Mixin
with_request_deno_test_run_cancel = record {
  methods = "deno/testRunCancel" ∷ [];
  registration = inherits;
  required = [];
  hooks = [];
}

abbrev pub with_receive_deno_registry_status : Mixin
with_receive_deno_registry_status = record {
  methods = "deno/registryState" ∷ [];
  registration = inherits;
  required = [];
  hooks = ("deno/registryState", notification_hook "receive_deno_registry_state") ∷ [];
}

abbrev pub with_receive_deno_test_module : Mixin
with_receive_deno_test_module = record {
  methods = "deno/testModule" ∷ [];
  registration = inherits;
  required = [];
  hooks = ("deno/testModule", notification_hook "receive_deno_test_module") ∷ [];
}

abbrev pub with_receive_deno_test_module_delete : Mixin
with_receive_deno_test_module_delete = record {
  methods = "deno/testModuleDelete" ∷ [];
  registration = inherits;
  required = [];
  hooks = ("deno/testModuleDelete", notification_hook "receive_deno_test_module_delete") ∷ [];
}

abbrev pub with_receive_deno_test_run_progress : Mixin
with_receive_deno_test_run_progress = record {
  methods = "deno/testRunProgress" ∷ [];
  registration = inherits;
  required = [];
  hooks = ("deno/testRunProgress", notification_hook "receive_deno_test_run_progress") ∷ [];
}
