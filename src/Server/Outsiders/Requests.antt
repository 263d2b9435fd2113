-- ===== src/Server/Outsiders/Requests.antt =====
-- Any requests without a token and without the bank's signature.
