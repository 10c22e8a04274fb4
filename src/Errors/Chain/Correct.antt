-- ===== src/Errors/Chain/Correct.antt =====
-- `is_invalid_auth_error` against the chain of causes as a relation.
